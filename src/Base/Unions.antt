-- ===== src/Base/Unions.antt =====
-- Words built by assigning several bit-fields that share no bit.
use Prim.Native.Nat.{ℕ, zero, suc, ◌%◌, ◌^◌}
use mathlib.Core.Path.{◌≡◌, refl, ◌∙◌, subst}
use mathlib.Core.Option.{some, some-injective}
use mathlib.Core.List.{List, [], ◌∷◌}
use native.Mathlib.Nat.{zero-div, zero-mod}
use hypervi.Base.Bits.{Field, get, put, Disjoint, get-put, get-put_other}
use hypervi.Base.Lists.{All, get_elem?}

-- A field and the value assigned to it.
abbrev pub Assignment : Type 0
Assignment = Field × ℕ

-- The head is assigned last.
unfoldable pub puts : List Assignment → ℕ → ℕ
unfolding put
puts [] x = x
puts ((f, v) ∷ l) x = put f v (puts l x)

-- Fields that share no bit.
abbrev pub IsUnion : List Assignment → Type 0
IsUnion [] = Unit
IsUnion ((f, v) ∷ l) = All (λ (a : Assignment). Disjoint f a.0) l × IsUnion l

All_at :
    (P : Assignment → Type 0) (l : List Assignment) (k : ℕ) {a : Assignment}
    → All P l
    → get_elem? l k ≡ some a
    → P a
All_at P [] k h e = cc
All_at P (b ∷ l) zero {a} h e = subst P (some-injective b a e) h.0
All_at P (b ∷ l) (suc k) h e = All_at P l k h.1 e

-- Each field of such a word reads as the value assigned to it, cut to its width.
pub get-puts :
    (l : List Assignment) (x k : ℕ) (f : Field) (v : ℕ)
    → IsUnion l
    → get_elem? l k ≡ some (f, v)
    → get f (puts l x) ≡ v % 2 ^ f.width
unfolding puts
get-puts [] x k f v h e = cc
get-puts ((g, w) ∷ l) x zero f v h e =
    subst (λ (a : Assignment). get a.0 (put g w (puts l x)) ≡ a.1 % 2 ^ a.0.width)
      (some-injective (g, w) (f, v) e) (get-put g w (puts l x))
get-puts ((g, w) ∷ l) x (suc k) f v h e =
    get-put_other g f w (puts l x) (All_at (λ (a : Assignment). Disjoint g a.0) l k h.0 e)
    ∙ get-puts l x k f v h.1 e

-- A field that shares no bit with those assigned keeps its value.
pub get-puts_other :
    (l : List Assignment) (x : ℕ) (g : Field)
    → All (λ (a : Assignment). Disjoint a.0 g) l
    → get g (puts l x) ≡ get g x
unfolding puts
get-puts_other [] x g h = refl
get-puts_other ((f, v) ∷ l) x g h = get-put_other f g v (puts l x) h.0 ∙ get-puts_other l x g h.1

pub get-zero : (f : Field) → get f 0 ≡ 0
unfolding get
get-zero f = rw (zero-div, zero-mod)
