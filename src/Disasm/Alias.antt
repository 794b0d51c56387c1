-- ===== src/Disasm/Alias.antt =====
-- `get_register_alias` of vm_base_types.cxx.
use yeti_vm.Base.{
  ℕ, zero, suc, ◌<◌, ◌≡◌, refl, sym, ap, ◌∙◌, arith, Bool, true, false, ◌&&◌, List, [], ◌∷◌, All,
}
use yeti_vm.Base.{ltb, ◌==◌, if◌then◌else◌, both, get_or, Bool-cases, inl, inr, ==_iff}
use yeti_vm.Vm.State.{register_count}
use yeti_vm.Disasm.Numbers.{IsPlain}

-- The names in the order of `RegAlias`.
abbrev aliases : List (List ℕ)
aliases =
    (b'z' ∷ b'e' ∷ b'r' ∷ b'o' ∷ [])
    ∷ (b'r' ∷ b'a' ∷ [])
    ∷ (b's' ∷ b'p' ∷ [])
    ∷ (b'g' ∷ b'p' ∷ [])
    ∷ (b't' ∷ b'p' ∷ [])
    ∷ (b't' ∷ b'0' ∷ [])
    ∷ (b't' ∷ b'1' ∷ [])
    ∷ (b't' ∷ b'2' ∷ [])
    ∷ (b's' ∷ b'0' ∷ [])
    ∷ (b's' ∷ b'1' ∷ [])
    ∷ (b'a' ∷ b'0' ∷ [])
    ∷ (b'a' ∷ b'1' ∷ [])
    ∷ (b'a' ∷ b'2' ∷ [])
    ∷ (b'a' ∷ b'3' ∷ [])
    ∷ (b'a' ∷ b'4' ∷ [])
    ∷ (b'a' ∷ b'5' ∷ [])
    ∷ (b'a' ∷ b'6' ∷ [])
    ∷ (b'a' ∷ b'7' ∷ [])
    ∷ (b's' ∷ b'2' ∷ [])
    ∷ (b's' ∷ b'3' ∷ [])
    ∷ (b's' ∷ b'4' ∷ [])
    ∷ (b's' ∷ b'5' ∷ [])
    ∷ (b's' ∷ b'6' ∷ [])
    ∷ (b's' ∷ b'7' ∷ [])
    ∷ (b's' ∷ b'8' ∷ [])
    ∷ (b's' ∷ b'9' ∷ [])
    ∷ (b's' ∷ b'1' ∷ b'0' ∷ [])
    ∷ (b's' ∷ b'1' ∷ b'1' ∷ [])
    ∷ (b't' ∷ b'3' ∷ [])
    ∷ (b't' ∷ b'4' ∷ [])
    ∷ (b't' ∷ b'5' ∷ [])
    ∷ (b't' ∷ b'6' ∷ [])
    ∷ (b'p' ∷ b'c' ∷ [])
    ∷ (b'u' ∷ b'n' ∷ b'k' ∷ b'n' ∷ b'o' ∷ b'w' ∷ b'n' ∷ [])
    ∷ []

-- `RegAlias::unknown`
abbrev unknown : ℕ
unknown = 33

unfoldable pub get_register_alias : ℕ → List ℕ
get_register_alias r = get_or aliases (if ltb register_count r then unknown else r) []

equal : List ℕ → List ℕ → Bool
equal [] [] = true
equal [] (y ∷ ys) = false
equal (x ∷ xs) [] = false
equal (x ∷ xs) (y ∷ ys) = (x == y) && equal xs ys

-- The register of a name.
register_of : List (List ℕ) → List ℕ → ℕ
register_of [] name = 0
register_of (n ∷ ns) name = if equal n name then 0 else suc (register_of ns name)

-- The test of the first registers, as many as said.
known : ℕ → Bool
known zero = true
known (suc n) = (register_of aliases (get_register_alias n) == n) && known n

all_known : known register_count ≡ true
unfolding known register_of equal get_register_alias
all_known = refl

known_lem : (n r : ℕ) → known n ≡ true → r < n → register_of aliases (get_register_alias r) ≡ r
unfolding known
known_lem zero r k lt = absurd (omega arith)
known_lem (suc n) r k lt =
    let (e, rest) = both _ (known n) k in
    elim (Bool-cases (r == n)) [
      | inl q ↦ let same = (==_iff r n).0 q in rw same ((==_iff _ n).0 e)
      | inr q ↦ known_lem n r rest (ground (arith, q))
    ]

-- The names of registers tell them apart.
pub get_register_alias-injective :
    (r q : ℕ) → r < 32 → q < 32 → get_register_alias r ≡ get_register_alias q → r ≡ q
get_register_alias-injective r q r-lt q-lt e =
    sym (known_lem 32 r all_known r-lt) ∙ ap (register_of aliases) e ∙ known_lem 32 q all_known q-lt

plain : ℕ → Bool
plain c = if c == b',' then false else if c == b'-' then false else true

all_plain : List ℕ → Bool
all_plain [] = true
all_plain (c ∷ cs) = plain c && all_plain cs

plain-IsPlain : (c : ℕ) → plain c ≡ true → IsPlain c
unfolding plain
plain-IsPlain c e = (ground (arith, e), ground (arith, e))

all_plain-IsPlain : (cs : List ℕ) → all_plain cs ≡ true → All IsPlain cs
unfolding all_plain
all_plain-IsPlain [] e = tt
all_plain-IsPlain (c ∷ cs) e =
    let (p, q) = both (plain c) (all_plain cs) e in (plain-IsPlain c p, all_plain-IsPlain cs q)

plain_names : ℕ → Bool
plain_names zero = true
plain_names (suc n) = all_plain (get_register_alias n) && plain_names n

all_plain_names : plain_names register_count ≡ true
unfolding plain_names all_plain plain get_register_alias
all_plain_names = refl

plain_names-IsPlain : (n r : ℕ) → plain_names n ≡ true → r < n → All IsPlain (get_register_alias r)
unfolding plain_names
plain_names-IsPlain zero r k lt = absurd (omega arith)
plain_names-IsPlain (suc n) r k lt =
    let (e, rest) = both _ (plain_names n) k in
    elim (Bool-cases (r == n)) [
      | inl q ↦ let same = (==_iff r n).0 q in rw same (all_plain-IsPlain (get_register_alias n) e)
      | inr q ↦ plain_names-IsPlain n r rest (ground (arith, q))
    ]

pub get_register_alias-IsPlain : (r : ℕ) → r < 32 → All IsPlain (get_register_alias r)
get_register_alias-IsPlain r lt = plain_names-IsPlain 32 r all_plain_names lt
