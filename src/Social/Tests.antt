-- ===== src/Social/Tests.antt =====
-- A public account, a private one, and a user who follows both.
use merope.Prelude.{
  ◌≡◌, refl, true, false, Option, none, some, List, [], ◌∷◌, String, if◌then◌else◌,
}
use merope.Prelude.Text.{str_eq}
use merope.Prelude.Pairs.{find_pair}
use merope.Social.Graph.{Graph, Faults, blocked_between, find_user}
use merope.Social.Service.{Counts, follow_user, block_user}
use merope.Social.Blocks.{well}
use merope.Social.Requests.{IsPolite}
use merope.Social.Asked.{Op, asks, follows, handles, run, run-IsPolite}

program : Unit {0}
unfolding follow_user block_user run blocked_between find_user
program = tt

abbrev known : String → Option String
known s = if str_eq s "" then none else some s

abbrev graph : Graph
graph = record {
  users =
      record { id = "ada"; is_private = false }
      ∷ record { id = "eve"; is_private = false }
      ∷ record { id = "kit"; is_private = true }
      ∷ [];
  follows = [];
  blocks = [];
  requests = [];
  connections = [];
}

abbrev no_counts : Counts
no_counts = λ _. []

abbrev calls : List (Faults × Op)
calls =
    (well, asks "eve" "kit")
    ∷ (well, handles "kit" "eve" "accepted")
    ∷ (well, follows true 5 "eve" "ada")
    ∷ []

run_test : find_pair ("eve", "kit") (run known calls graph no_counts).follows ≡ some "accepted"
unfolding program
run_test = refl

run-IsPolite_example : IsPolite (run known calls graph no_counts)
run-IsPolite_example = run-IsPolite known calls graph no_counts tt
