-- ===== src/Freestanding/ElfMapper/Imports.antt =====
-- Looking a name up among the imports.
use hypervi.Base.{
  ℕ, ◌+◌, ◌<◌, ◌≡◌, refl, ap, arith, Bool, true, false, ◌&&◌, List, [], ◌∷◌, map, some, ◌==◌,
  if◌then◌else◌, length, All, pos, negsuc,
}
use hypervi.Freestanding.Memory.{Bytes}
use hypervi.Freestanding.Libc.Strings.{IsString, difference, strcmp-difference}
use hypervi.Freestanding.ElfMapper.{ElfMapper, ElfImport, same_string, resolve_import}

-- Two texts are the same.
unfoldable pub same_text : List ℕ → List ℕ → Bool
same_text [] [] = true
same_text [] (d ∷ t) = false
same_text (c ∷ s) [] = false
same_text (c ∷ s) (d ∷ t) = c == d && same_text s t

difference-same_text :
    (m : Bytes) (s t : List ℕ) (a b : ℕ)
    → IsString m a s
    → IsString m b t
    → (elim (difference s t) [ pos d ↦ d == 0 | negsuc d ↦ false ]) ≡ same_text s t
unfolding difference same_text
difference-same_text m [] [] a b hs ht = refl
difference-same_text m [] (d ∷ t) a b hs ht = ground arith
difference-same_text m (c ∷ s) [] a b hs ht = ground arith
difference-same_text m (c ∷ s) (d ∷ t) a b hs ht =
    ground (arith, difference-same_text m s t (a + 1) (b + 1) hs.2 ht.2)

-- On strings that end, the comparison decides whether they are the same text.
pub same_string_lem :
    (m : Bytes) (s t : List ℕ) (fuel a b : ℕ)
    → IsString m a s
    → IsString m b t
    → length s < fuel
    → same_string fuel a b m ≡ some (same_text s t)
unfolding same_string
same_string_lem m s t fuel a b hs ht enough =
    rw (strcmp-difference m s t fuel a b hs ht enough)
      (ap some (difference-same_text m s t a b hs ht))

-- An import with the text of its name.
abbrev pub Named : Type 0
Named = ElfImport × List ℕ

abbrev pub import_of : Named → ElfImport
import_of n = n.0

-- The address of the first import of a name, or 0.
unfoldable pub first_address : List Named → List ℕ → ℕ
first_address [] t = 0
first_address ((x, s) ∷ l) t = if same_text s t then x.address else first_address l t

-- On names that end, `resolve_import` ends and returns the address of the first import whose
-- name is the same text, null if there is none.
pub resolve_import_lem :
    (e : ElfMapper) (m : Bytes) (fuel name : ℕ) (t : List ℕ) (l : List Named)
    → IsString m name t
    → All (λ (n : Named). IsString m n.0.name n.1 × (length n.1 < fuel)) l
    → resolve_import e fuel (map import_of l) name m ≡ some (first_address l t)
unfolding resolve_import first_address
resolve_import_lem e m fuel name t [] ht all = refl
resolve_import_lem e m fuel name t ((x, s) ∷ l) ht all =
    rw
      (
        same_string_lem m s t fuel x.name name all.0.0 ht all.0.1,
        resolve_import_lem e m fuel name t l ht all.1,
      )
      (ground arith)
