-- ===== src/Tests/LeaseTests.antt =====
-- The lease manager (libs/test_automation/resource_lease.py).
use zzt_self.Base.{◌≡◌, refl, true, false, List, [], ◌∷◌}
use zzt_self.Base.Dict.{pair_key}
use zzt_self.Leases.{
  Lease, DeviceSpec, Leases, conflict, leases_at, key_of, lease_for, acquire, release, is_held,
}
use zzt_self.Leases.Safety.{Reachable, new, after, acquires, Reachable-sole}

abbrev com19 : DeviceSpec
com19 = record { resource_type = "serial_port"; resource_id = "COM19"; shared = false }

abbrev log_file : DeviceSpec
log_file = record { resource_type = "log"; resource_id = "cco.log"; shared = true }

abbrev first : Leases
first = (acquire com19 "run-1" []).1

abbrev both : Leases
both = (acquire log_file "run-2" (acquire log_file "run-1" first).1).1

second_refused : (acquire com19 "run-2" both).0 ≡ conflict "run-1"
unfolding acquire pair_key
second_refused = refl

readers :
    leases_at (key_of log_file) both ≡ lease_for log_file "run-1" ∷ lease_for log_file "run-2" ∷ []
unfolding acquire pair_key
readers = refl

freed : is_held (key_of com19) (release (key_of com19) "run-1" both) ≡ false
unfolding acquire release is_held pair_key
freed = refl

abbrev first-Reachable : Reachable first
first-Reachable = after [] first new (acquires com19 "run-1" [])

Reachable-sole_example : (◌≡◌ {A = List Lease} [] []) × (◌≡◌ {A = List Lease} [] [])
unfolding acquire pair_key
Reachable-sole_example =
    Reachable-sole first (key_of com19) [] [] (lease_for com19 "run-1") first-Reachable refl refl
