-- ===== src/Tests/SerialTests.antt =====
-- The serial registry (libs/shared/serial_resources.py).
use zzt_self.Base.{◌≡◌, refl, ◌⊎◌, some, List, [], ◌∷◌}
use Prim.Native.String.{String}
use zzt_self.Base.Dict.{lookup, text_key}
use zzt_self.Serial.{
  Texts, Request, Reservation, Registry, reserved, conflict, holds_others, no_key, reserve, release,
}
use zzt_self.Serial.Owners.{WellFormed}
use zzt_self.Serial.Calls.{reserves, Reachable, new, after, Reachable-WellFormed, Call-kept}

abbrev plain : Texts
plain = record { strip = λ s. s; without_marks = λ s. s; casefold = λ s. s }

abbrev ask : String → String → List String → Request
ask owner resource ports = record {
  owner_id = owner;
  label = "";
  resource_id = resource;
  aliases = ports;
}

abbrev empty : Registry
empty = record { by_key = []; by_owner = [] }

abbrev one : Registry
one = (reserve plain (ask "flash" "map1" ("COM3" ∷ "\\\\.\\COM3" ∷ [])) empty).1

abbrev flash : Reservation
flash = record {
  owner_id = "flash";
  owner_label = "flash";
  resource_id = "map1";
  aliases = "COM3" ∷ "\\\\.\\COM3" ∷ [];
}

one_keys : one.by_key ≡ ("mapping:map1", flash) ∷ ("port:COM3", flash) ∷ []
unfolding reserve text_key
one_keys = refl

taken : (reserve plain (ask "sniffer" "" ("COM3" ∷ [])) one).0 ≡ conflict flash
unfolding reserve text_key
taken = refl

again : (reserve plain (ask "flash" "map1" ("COM3" ∷ [])) one).0 ≡ reserved flash
unfolding reserve text_key
again = refl

switched : (reserve plain (ask "flash" "map2" []) one).0 ≡ holds_others
unfolding reserve text_key
switched = refl

nothing_asked : (reserve plain (ask "flash" "" ("" ∷ [])) empty).0 ≡ no_key
unfolding reserve text_key
nothing_asked = refl

free : (release plain "flash" one).1 ≡ empty
unfolding reserve release text_key
free = refl

abbrev one-Reachable : Reachable plain one
one-Reachable =
    after empty one new (reserves (ask "flash" "map1" ("COM3" ∷ "\\\\.\\COM3" ∷ [])) empty)

Reachable-WellFormed_example : WellFormed one
Reachable-WellFormed_example = Reachable-WellFormed plain one one-Reachable

Call-kept_example :
    (lookup "port:COM3" (reserve plain (ask "sniffer" "" ("COM3" ∷ [])) one).1.by_key ≡ some flash)
    ⊎ ((owner_id : String) × (owner_id ≡ "flash")
        × ((reserve plain (ask "sniffer" "" ("COM3" ∷ [])) one).1 ≡ (release plain owner_id one).1))
unfolding reserve text_key
Call-kept_example =
    Call-kept plain one (reserve plain (ask "sniffer" "" ("COM3" ∷ [])) one).1 "port:COM3" flash
      one-Reachable (reserves (ask "sniffer" "" ("COM3" ∷ [])) one) refl
