-- ===== src/Messaging/Calls.antt =====
-- Runs of the service of backend/internal/modules/messaging: its calls, and the tables after a list of them.
use merope.Prelude.{ℕ, Bool, List, [], ◌∷◌, String}
use merope.Prelude.Int.{ℤ}
use merope.Messaging.Store.{Tables, Faults}
use merope.Messaging.Rows.{ChatMessage}
use merope.Messaging.Service as Service
use merope.Messaging.Service.{Deps}
use merope.Messaging.Encryption.{forward, enable_e2ee, disable_e2ee, rotate_key}

pub data Op : Type 0 where
  start_direct : String → String → String → Op
  create_group : String → String → List String → Op
  send : ℤ → String → ChatMessage → Op
  edit : String → String → String → Op
  delete : String → String → Op
  burn : String → String → Op
  react : String → String → String → Op
  read : ℕ → String → String → Op
  mute : ℕ → String → String → ℤ → Op
  archive : String → String → Bool → Op
  pin : String → String → Op
  forward_to : ℕ → String → String → String → String → Op
  enable : (String → Bool) → String → String → Op
  disable : String → Op
  rotate : String → String → String → String → Op

module _ (d : Deps) where
  -- The tables after a call.
  unfoldable pub execute : Faults → Op → Tables → Tables
  unfolding Service.start_direct Service.create_group Service.send Service.edit Service.delete
      Service.burn Service.react Service.read Service.mute Service.archive Service.pin forward
      enable_e2ee disable_e2ee rotate_key
  execute f (Op.start_direct id a b) t = (Service.start_direct d f id a b t).1
  execute f (Op.create_group id name users) t = (Service.create_group d f id name users t).1
  execute f (Op.send now id msg) t = (Service.send d f now id msg t).1
  execute f (Op.edit m u content) t = (Service.edit d f m u content t).1
  execute f (Op.delete m u) t = (Service.delete d f m u t).1
  execute f (Op.burn m u) t = (Service.burn d f m u t).1
  execute f (Op.react m u emoji) t = (Service.react d f m u emoji t).1
  execute f (Op.read now m u) t = (Service.read d f now m u t).1
  execute f (Op.mute now u r minutes) t = (Service.mute d f now u r minutes t).1
  execute f (Op.archive u r archived) t = (Service.archive d f u r archived t).1
  execute f (Op.pin r m) t = (Service.pin d f r m t).1
  execute f (Op.forward_to now id m u r) t = (forward d f now id m u r t).1
  execute f (Op.enable refused r u) t = (enable_e2ee d f refused r u t).1
  execute f (Op.disable r) t = (disable_e2ee d f r t).1
  execute f (Op.rotate r u key device) t = (rotate_key d f r u key device t).1

  unfoldable pub run : List (Faults × Op) → Tables → Tables
  unfolding execute
  run [] t = t
  run ((f, op) ∷ ops) t = run ops (execute f op t)
