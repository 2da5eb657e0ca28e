-- ===== src/Leases/Safety.antt =====
-- The calls on the manager as steps, and what holds after any number of them.
use zzt_self.Base.{
  ◌≤◌, ◌≡◌, refl, sym, ap, ◌∙◌, ◌≢◌, ◌↔◌, ◌⊎◌, inl, inr, Bool, true, false, not, ◌&&◌, ◌||◌, some,
  List, [], ◌∷◌, ◌++◌, arith, if◌then◌else◌, Bool-cases, &&_true, length, length-append, same,
}
use Prim.Native.String.{String}
use mathlib.Core.Path.{subst}
use zzt_self.Base.Dict.{lookup, insert, erase, pair_key, lookup-insert, lookup-erase}
use zzt_self.Leases.{
  Lease, DeviceSpec, ResourceKey, Leases, leases_at, any_exclusive, key_of, lease_for, acquire,
  without_holder, release, is_held,
}
use zzt_self.Leases.Effects.{
  fits, same_resource, leases_at-same, leases_at-acquire, leases_at-release, acquire-fits,
  acquire-refused, release-eq, released,
}

-- One call from outside, whatever its arguments; a refused request is a step too.
pub data Call : Leases → Leases → Type 0 where
  acquires : (spec : DeviceSpec) (holder : String) (s : Leases) → Call s (acquire spec holder s).1
  releases : (key : ResourceKey) (holder : String) (s : Leases) → Call s (release key holder s)

-- The leases after some calls on a new manager.
pub data Reachable : Leases → Type 0 where
  new : Reachable []
  after : (s t : Leases) → Reachable s → Call s t → Reachable t

-- All shared, or at most one.
abbrev Exclusive : List Lease → Type 0
Exclusive ls = (any_exclusive ls ≡ false) ⊎ (length ls ≤ 1)

any_exclusive-snoc :
    (ls : List Lease) (l : Lease)
    → any_exclusive (ls ++ (l ∷ [])) ≡ (any_exclusive ls || not l.shared)
any_exclusive-snoc [] l = ground arith
any_exclusive-snoc (m ∷ ls) l = ground (arith, any_exclusive-snoc ls l)

Exclusive-snoc :
    (spec : DeviceSpec) (holder : String) (ls : List Lease)
    → fits spec ls ≡ true
    → Exclusive (ls ++ (lease_for spec holder ∷ []))
Exclusive-snoc spec holder [] h = inr (omega arith)
Exclusive-snoc spec holder (l ∷ ls) h =
    inl (ground (arith, h, any_exclusive-snoc (l ∷ ls) (lease_for spec holder)))

any_exclusive-without_holder :
    (holder : String) (ls : List Lease)
    → any_exclusive ls ≡ false
    → any_exclusive (without_holder holder ls) ≡ false
unfolding without_holder
any_exclusive-without_holder holder [] h = refl
any_exclusive-without_holder holder (l ∷ ls) h =
    ground (arith, h, any_exclusive-without_holder holder ls)

length-without_holder :
    (holder : String) (ls : List Lease) → length (without_holder holder ls) ≤ length ls
unfolding without_holder
length-without_holder holder [] = omega arith
length-without_holder holder (l ∷ ls) = ground (arith, length-without_holder holder ls)

Exclusive-without_holder :
    (holder : String) (ls : List Lease) → Exclusive ls → Exclusive (without_holder holder ls)
Exclusive-without_holder holder ls e = elim e [
  | inl h ↦ inl (any_exclusive-without_holder holder ls h)
  | inr h ↦ inr (omega (arith, h, length-without_holder holder ls))
]

Exclusive-if :
    (b : Bool) (xs ys : List Lease)
    → (b ≡ true → Exclusive xs)
    → Exclusive ys
    → Exclusive (if b then xs else ys)
Exclusive-if true xs ys h k = h refl
Exclusive-if false xs ys h k = k

Exclusive-Call :
    (s t : Leases)
    → Call s t
    → ((j : ResourceKey) → Exclusive (leases_at j s))
    → (j : ResourceKey) → Exclusive (leases_at j t)
Exclusive-Call s _ (acquires spec holder _) h j =
    let k = key_of spec in
    let old = leases_at j s in
    let grow = same_resource k j && fits spec (leases_at k s) in
    let more : grow ≡ true → Exclusive (old ++ (lease_for spec holder ∷ [])) = λ g.
      let (same, room) = &&_true (same_resource k j) (fits spec (leases_at k s)) g in
      Exclusive-snoc spec holder old (ap (fits spec) (sym (leases_at-same k j s same)) ∙ room) in
    subst Exclusive (sym (leases_at-acquire spec holder s j)) (Exclusive-if grow _ old more (h j))
Exclusive-Call s _ (releases key holder _) h j =
    subst Exclusive (sym (leases_at-release key holder s j)) (
      Exclusive-if (same_resource key j) _ _
        (λ e. Exclusive-without_holder holder (leases_at j s) (h j)) (h j))

pub Reachable-Exclusive : (s : Leases) → Reachable s → (j : ResourceKey) → Exclusive (leases_at j s)
unfolding leases_at
Reachable-Exclusive _ new j = inl refl
Reachable-Exclusive t (after s _ r c) j = Exclusive-Call s t c (Reachable-Exclusive s r) j

any_exclusive-middle :
    (ls ms : List Lease) (l : Lease) → l.shared ≡ false → any_exclusive (ls ++ (l ∷ ms)) ≡ true
any_exclusive-middle [] ms l h = ground (arith, h)
any_exclusive-middle (m ∷ ls) ms l h = ground (arith, any_exclusive-middle ls ms l h)

empty-sides : (ls ms : List Lease) (l : Lease) → length (ls ++ (l ∷ ms)) ≤ 1 → (ls ≡ []) × (ms ≡ [])
empty-sides [] [] l h = (refl, refl)
empty-sides [] (m ∷ ms) l h = ground (arith, h)
empty-sides (k ∷ ls) ms l h = ground (arith, h, length-append ls (l ∷ ms))

-- Whatever the calls, an exclusive lease is the only lease of its resource.
pub Reachable-sole :
    (s : Leases) (j : ResourceKey) (ls ms : List Lease) (l : Lease)
    → Reachable s
    → leases_at j s ≡ ls ++ (l ∷ ms)
    → l.shared ≡ false
    → (ls ≡ []) × (ms ≡ [])
Reachable-sole s j ls ms l r h x = elim (subst Exclusive h (Reachable-Exclusive s r j)) [
  | inl none_exclusive ↦ cc (none_exclusive, any_exclusive-middle ls ms l x)
  | inr few ↦ empty-sides ls ms l few
]

-- No key has an empty list.
abbrev NoEmpty : Leases → Type 0
NoEmpty s = (j : ResourceKey) → lookup j s ≢ some []

NoEmpty-insert :
    (k : ResourceKey) (l : Lease) (ls : List Lease) (s : Leases)
    → NoEmpty s
    → NoEmpty (insert k (l ∷ ls) s)
NoEmpty-insert k l ls s h j e = ground (arith, e, h j, lookup-insert k j (l ∷ ls) s)

NoEmpty-erase : (k : ResourceKey) (s : Leases) → NoEmpty s → NoEmpty (erase k s)
NoEmpty-erase k s h j e = ground (arith, e, h j, lookup-erase k j s)

NoEmpty-add :
    (k : ResourceKey) (l : Lease) (ls : List Lease) (s : Leases)
    → NoEmpty s
    → NoEmpty (insert k (ls ++ (l ∷ [])) s)
NoEmpty-add k l [] s h = NoEmpty-insert k l [] s h
NoEmpty-add k l (m ∷ ls) s h = NoEmpty-insert k m (ls ++ (l ∷ [])) s h

NoEmpty-released :
    (k : ResourceKey) (s : Leases) (ls kept : List Lease)
    → NoEmpty s
    → NoEmpty (released k s ls kept)
NoEmpty-released k s [] kept h = h
NoEmpty-released k s (l ∷ ls) [] h = NoEmpty-erase k s h
NoEmpty-released k s (l ∷ ls) (m ∷ ms) h = NoEmpty-insert k m ms s h

NoEmpty-Call : (s t : Leases) → Call s t → NoEmpty s → NoEmpty t
NoEmpty-Call s _ (acquires spec holder _) h =
    elim (Bool-cases (fits spec (leases_at (key_of spec) s))) [
      | inl f ↦
          subst NoEmpty (ap (λ r. r.1) (sym (acquire-fits spec holder s f)))
            (NoEmpty-add (key_of spec) (lease_for spec holder) (leases_at (key_of spec) s) s h)
      | inr f ↦ subst NoEmpty (sym (acquire-refused spec holder s f)) h
    ]
NoEmpty-Call s _ (releases key holder _) h =
    subst NoEmpty (sym (release-eq key holder s))
      (NoEmpty-released key s (leases_at key s) (without_holder holder (leases_at key s)) h)

Reachable-NoEmpty : (s : Leases) → Reachable s → NoEmpty s
Reachable-NoEmpty _ new = λ j e. cc
Reachable-NoEmpty t (after s _ r c) = NoEmpty-Call s t c (Reachable-NoEmpty s r)

-- `is_held` answers whether there is a lease, though it only looks for the key.
pub Reachable-is_held :
    (s : Leases) (j : ResourceKey) → Reachable s → (is_held j s ≡ false) ↔ (leases_at j s ≡ [])
unfolding is_held leases_at
Reachable-is_held s j r = ground (arith, Reachable-NoEmpty s r j)
