-- ===== src/Tests/Llist.antt =====
-- A list of three entries, at 10, 20 and 30.
use hypervi.Base.{ℕ, ◌≤◌, ◌≡◌, refl, arith, [], ◌∷◌, none, some, ◌==◌, if◌then◌else◌}
use hypervi.Freestanding.Llist.{Store, append, tail}
use hypervi.Freestanding.Llist.Chain.{Chain, append-Chain}

abbrev three : Store ℕ
three a =
    if a == 10
    then some (record { m_prev = 0; m_next = 20; m_data = 1 })
    else if a == 20
    then some (record { m_prev = 10; m_next = 30; m_data = 2 })
    else if a == 30
    then some (record { m_prev = 20; m_next = 0; m_data = 3 })
    else none

three-Chain : Chain three 0 ((10, 1) ∷ (20, 2) ∷ (30, 3) ∷ [])
three-Chain = ((λ e. omega arith), refl, ((λ e. omega arith), refl, ((λ e. omega arith), refl, tt)))

-- Appended at the second entry, the new one takes the place of the third.
append-Chain_example :
    (s' : Store ℕ) × (append 40 4 20 three ≡ some s')
    × Chain s' 0 ((10, 1) ∷ (20, 2) ∷ (40, 4) ∷ [])
    × ((fuel : ℕ) → 3 ≤ fuel → tail fuel 10 s' ≡ some 40)
append-Chain_example =
    append-Chain three 0 20 40 2 4 ((10, 1) ∷ []) ((30, 3) ∷ []) three-Chain
      (((λ e. omega arith), (λ e. omega arith)), tt) (λ e. omega arith) (λ e. omega arith)
