-- ===== src/Serial/Effects.antt =====
-- What the loops of `reserve` and `release` do to the two tables.
use zzt_self.Base.{
  has_text, ◌≡◌, refl, true, none, some, List, [], ◌∷◌, arith, if◌then◌else◌, same_text_iff,
}
use Prim.Native.String.{String}
use zzt_self.Base.Dict.{lookup, insert, text_key, lookup-insert, Distinct, Distinct-insert}
use zzt_self.Serial.{Reservation, first_conflict, put_keys}

abbrev pub Table : Type 0
Table = List (String × Reservation)

pub lookup-put_keys :
    (r : Reservation) (ks : List String) (d : Table) (j : String)
    → lookup j (put_keys r ks d) ≡ (if has_text j ks then some r else lookup j d)
unfolding text_key
lookup-put_keys r [] d j = refl
lookup-put_keys r (k ∷ ks) d j =
    ground (arith, lookup-put_keys r ks (insert k r d) j, lookup-insert k j r d)

pub Distinct-put_keys :
    (r : Reservation) (ks : List String) (d : Table) → Distinct d → Distinct (put_keys r ks d)
Distinct-put_keys r [] d h = h
Distinct-put_keys r (k ∷ ks) d h = Distinct-put_keys r ks (insert k r d) (Distinct-insert k r d h)

-- Without a conflict a key asked for is free, or owned by who asks.
pub first_conflict-owner :
    (owner : String) (ks : List String) (d : Table) (j : String) (r : Reservation)
    → first_conflict owner ks d ≡ none
    → has_text j ks ≡ true
    → lookup j d ≡ some r
    → r.owner_id ≡ owner
unfolding first_conflict
first_conflict-owner owner [] d j r h m e = cc
first_conflict-owner owner (k ∷ ks) d j r h m e = ground (
  arith,
  h,
  m,
  e,
  same_text_iff k j,
  same_text_iff r.owner_id owner,
  first_conflict-owner owner ks d j r,
)
