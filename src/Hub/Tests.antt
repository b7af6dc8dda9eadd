-- ===== src/Hub/Tests.antt =====
-- Two clients of one user and one of another.
use merope.Prelude.{◌≡◌, refl, true, some, List, [], ◌∷◌, arith}
use merope.Hub.Shards.{
  Client, State, get_shard, new_hub, add_client, recipients, leave as leave_queue,
}
use merope.Hub.Spec.{Op, join, leave, of_user, hub_after, promised}
use merope.Hub.Delivery.{delivery_refines}
use merope.Hub.Queue.{times, take_many, left_is_removed}

program : Unit {0}
unfolding get_shard add_client recipients leave_queue of_user hub_after promised times take_many
program = tt

abbrev phone : Client
phone = record { pointer = 1; user_id = "ada"; has_conn = true }

abbrev laptop : Client
laptop = record { pointer = 2; user_id = "ada"; has_conn = true }

abbrev other : Client
other = record { pointer = 3; user_id = "eve"; has_conn = true }

get_shard_test : get_shard "ada" ≡ 27
unfolding program
get_shard_test = refl

get_shard_unicode_test : get_shard "zoë" ≡ 28
unfolding program
get_shard_unicode_test = refl

abbrev steps : List Op
steps = leave (some phone) ∷ join (some other) ∷ join (some laptop) ∷ join (some phone) ∷ []

delivery_refines_example : recipients "ada" (hub_after steps) ≡ of_user "ada" (promised steps)
delivery_refines_example = delivery_refines "ada" steps

promised_test : of_user "ada" (promised steps) ≡ laptop ∷ []
unfolding program
promised_test = refl

abbrev state : State
state = record { hub = add_client phone (add_client laptop new_hub); unregister_queue = other ∷ [] }

left_is_removed_example :
    let left = leave_queue phone state in
    let end = take_many 2 left in times 1 (recipients "ada" end.hub) ≡ 0
unfolding program
left_is_removed_example = left_is_removed phone state refl (omega arith)
