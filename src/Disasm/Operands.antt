-- ===== src/Disasm/Operands.antt =====
-- Operands that are separated by commas, and the words that they stand for.
use yeti_vm.Base.{ℕ, ◌<◌, ◌≡◌, refl, sym, ap, ◌∙◌, List, [], ◌∷◌, All}
use yeti_vm.Base.{◌==◌, if◌then◌else◌, drop}
use yeti_vm.Disasm.Numbers.{IsPlain}
use yeti_vm.Disasm.Alias.{
  get_register_alias, get_register_alias-injective, get_register_alias-IsPlain,
}
use yeti_vm.Disasm.Args.{joined, after_one, after_two}

-- What stands before the first comma, and what stands behind it and its blank.
before : List ℕ → List ℕ
before [] = []
before (c ∷ cs) = if c == b',' then [] else c ∷ before cs

behind : List ℕ → List ℕ
behind [] = []
behind (c ∷ cs) = if c == b',' then drop 1 cs else behind cs

before-joined : (xs ys : List ℕ) → All IsPlain xs → before (joined xs ys) ≡ xs
unfolding before
before-joined [] ys h = refl
before-joined (x ∷ xs) ys ((p, q), h) = rw p (ap (λ (t : List ℕ). x ∷ t) (before-joined xs ys h))

behind-joined : (xs ys : List ℕ) → All IsPlain xs → behind (joined xs ys) ≡ ys
unfolding behind
behind-joined [] ys h = refl
behind-joined (x ∷ xs) ys ((p, q), h) = rw p (behind-joined xs ys h)

joined-injective :
    (xs xs' ys ys' : List ℕ)
    → All IsPlain xs
    → All IsPlain xs'
    → joined xs ys ≡ joined xs' ys'
    → (xs ≡ xs') × (ys ≡ ys')
joined-injective xs xs' ys ys' p q e = (
  sym (before-joined xs ys p) ∙ ap before e ∙ before-joined xs' ys' q,
  sym (behind-joined xs ys p) ∙ ap behind e ∙ behind-joined xs' ys' q,
)

pub after_one-injective :
    (r r' : ℕ) (ys ys' : List ℕ)
    → r < 32
    → r' < 32
    → after_one r ys ≡ after_one r' ys'
    → (r ≡ r') × (ys ≡ ys')
after_one-injective r r' ys ys' lt lt' e =
    let (a, b) =
      joined-injective (get_register_alias r) (get_register_alias r') ys ys'
        (get_register_alias-IsPlain r lt) (get_register_alias-IsPlain r' lt') e in
    (get_register_alias-injective r r' lt lt' a, b)

pub after_two-injective :
    (r r' q q' : ℕ) (ys ys' : List ℕ)
    → r < 32
    → r' < 32
    → q < 32
    → q' < 32
    → after_two r q ys ≡ after_two r' q' ys'
    → (r ≡ r') × (q ≡ q') × (ys ≡ ys')
after_two-injective r r' q q' ys ys' lt lt' m m' e =
    let (a, rest) = after_one-injective r r' (after_one q ys) (after_one q' ys') lt lt' e in
    let (b, c) = after_one-injective q q' ys ys' m m' rest in (a, b, c)
