-- ===== src/Audit/Tests.antt =====
-- Two trees that were told the same two actions.
use merope.Prelude.{◌≡◌, refl, length, ◌⊎◌, List, [], ◌∷◌, take, map}
use merope.Prelude.Text.{codes}
use merope.Audit.{
  Bytes, Action, zeros, entry, record_all, get_root_hash, append_privacy_action, roll,
}
use merope.Audit.Binding.{Collision, root_binds}

program : Unit {0}
unfolding record_all get_root_hash append_privacy_action roll
program = tt

-- A hash of 32 bytes that tells lists apart by their first byte.
abbrev hash : Bytes → Bytes
hash [] = zeros
hash (b ∷ rest) = b ∷ take 31 zeros

abbrev actions : List Action
actions =
    record { action = "rotate"; user_id = "ada" }
    ∷ record { action = "export"; user_id = "eve" }
    ∷ []

length-hash : (x : Bytes) → length (hash x) ≡ 32
length-hash [] = refl
length-hash (b ∷ rest) = refl

root_binds_example :
    (map (entry hash codes) actions ≡ map (entry hash codes) actions) ⊎ Collision hash
root_binds_example = root_binds hash length-hash codes actions actions refl refl
