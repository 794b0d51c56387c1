-- ===== src/Syscall/Registered.antt =====
-- What `find_handler` of vm_syscall.cxx finds after `register_handler`.
use yeti_vm.Base.{
  ℕ, ◌≡◌, refl, sym, subst, ap, ◌∙◌, inl, inr, Bool, true, false, Option, none, some, List, ◌∷◌,
}
use yeti_vm.Base.{◌==◌, ==_iff, if◌then◌else◌, Bool-cases}
use yeti_vm.Base.Exec.{Result, ok, err, domain_error}
use yeti_vm.Syscall.{SyscallFunctor, find_handler, register_handler}

module _ {S : Type 0} where
  -- The first handler keeps its id.
  abbrev pub first : Option (SyscallFunctor S) → SyscallFunctor S → Option (SyscallFunctor S)
  first none h = some h
  first (some g) h = some g

  -- What `register_handler` comes to, by what the map holds under the id.
  abbrev outcome :
      List (SyscallFunctor S)
      → SyscallFunctor S
      → Option (SyscallFunctor S)
      → List (SyscallFunctor S)
  outcome hs h none = h ∷ hs
  outcome hs h (some _) = hs

  abbrev Finds : List (SyscallFunctor S) → SyscallFunctor S → ℕ → List (SyscallFunctor S) → Type 0
  Finds hs h id hs' =
      find_handler hs' id
      ≡ (if id == h.id then first (find_handler hs id) h else find_handler hs id)

  registered :
      (hs : List (SyscallFunctor S)) (h : SyscallFunctor S) (id : ℕ) (o : Option (SyscallFunctor S))
      → find_handler hs h.id ≡ o
      → Finds hs h id (outcome hs h o)
  unfolding find_handler
  registered hs h id o e = elim (Bool-cases (id == h.id)) [
    | inl q ↦ same o q (ap (find_handler hs) ((==_iff id h.id).0 q) ∙ e)
    | inr q ↦ other o q
  ]
    where
      same :
          (o : Option (SyscallFunctor S))
          → (id == h.id) ≡ true
          → find_handler hs id ≡ o
          → Finds hs h id (outcome hs h o)
      same none q f = rw (q, f) refl
      same (some x) q f = rw (q, f) refl

      other :
          (o : Option (SyscallFunctor S)) → (id == h.id) ≡ false → Finds hs h id (outcome hs h o)
      other none q = rw q refl
      other (some x) q = rw q refl

  listed :
      (hs : List (SyscallFunctor S)) (h : SyscallFunctor S) (o : Option (SyscallFunctor S))
      → (elim o as (λ _. Result Bool × List (SyscallFunctor S)) [
        | none ↦ (ok true, h ∷ hs)
        | some _ ↦ (err domain_error, hs)
      ]).1
        ≡ outcome hs h o
  listed hs h none = refl
  listed hs h (some x) = refl

  -- After a registration the handler of the same id is the one that was there before, or else the
  -- new one, and every other id finds what it found.
  pub find_handler-register_handler :
      (hs : List (SyscallFunctor S)) (h : SyscallFunctor S) (id : ℕ)
      → find_handler (register_handler h hs).1 id
        ≡ (if id == h.id then first (find_handler hs id) h else find_handler hs id)
  unfolding register_handler
  find_handler-register_handler hs h id =
      subst (Finds hs h id) (sym (listed hs h (find_handler hs h.id)))
        (registered hs h id (find_handler hs h.id) refl)
