-- ===== src/Social/Blocks.antt =====
-- What a block does in backend/internal/modules/social: the statement of `BlockUserAtomically` writes
-- neural_connections, and every check reads the table blocks.
use merope.Prelude.{ℕ, ◌≡◌, refl, Bool, false, ◌&&◌, inl, inr, Bool-cases, Option, some, String}
use merope.Prelude.Outcome.{ok}
use merope.Prelude.Pairs.{find_pair, find_pair-upsert}
use merope.Social.Graph.{
  User, Graph, Faults, find_user, blocked_between, with_ids, is_private_user, insert_follow, follow,
  block,
}
use merope.Social.Service.{Counts, track_interaction, bad_pair, follow_user, block_user}

-- No statement fails.
abbrev pub well : Faults
well = record { fails = λ _. false; kept = false }

module _ (scan_uuid : String → Option String) where
  block-keeps :
      (f : Faults) (a b x y : String) (g : Graph)
      → scan_uuid a ≡ some x
      → scan_uuid b ≡ some y
      → ((block scan_uuid f a b g).1.users ≡ g.users)
        × ((block scan_uuid f a b g).1.blocks ≡ g.blocks)
  unfolding block
  block-keeps f a b x y g is_x is_y = elim (Bool-cases (f.fails 0)) [
    | inr works ↦ rw (block, with_ids, is_x, is_y, works) (refl, refl)
    | inl fails ↦ elim (Bool-cases f.kept) [
      | inl kept ↦ rw (block, with_ids, is_x, is_y, fails, kept) (refl, refl)
      | inr lost ↦ rw (block, with_ids, is_x, is_y, fails, lost) (refl, refl)
    ]
  ]

  block_user-keeps :
      (f : Faults) (a b x y : String) (g : Graph)
      → scan_uuid a ≡ some x
      → scan_uuid b ≡ some y
      → ((block_user scan_uuid f a b g).1.users ≡ g.users)
        × ((block_user scan_uuid f a b g).1.blocks ≡ g.blocks)
  unfolding block_user
  block_user-keeps f a b x y g is_x is_y = elim (Bool-cases (bad_pair a b)) [
    | inl bad ↦ rw (block_user, bad) (refl, refl)
    | inr good ↦ rw (block_user, good) (block-keeps f a b x y g is_x is_y)
  ]

  -- A follow of a public account goes through, if the table blocks has no row for the two.
  follow_public :
      (guarded : Bool) (now : ℕ) (a b x y : String) (u v : User) (g : Graph) (c : Counts)
      → (guarded && (track_interaction now a c).0) ≡ false
      → scan_uuid a ≡ some x
      → scan_uuid b ≡ some y
      → bad_pair a b ≡ false
      → find_user y g.users ≡ some v
      → v.is_private ≡ false
      → find_user x g.users ≡ some u
      → blocked_between x y g ≡ false
      → let (done_, g') = (follow_user scan_uuid guarded well now a b g c).0 in
        (done_ ≡ ok tt) × (find_pair (x, y) g'.follows ≡ some "accepted")
  unfolding follow_user is_private_user follow insert_follow
  follow_public guarded now a b x y u v g c calm is_x is_y good there public other free =
      let opened : is_private_user scan_uuid well 0 b g ≡ ok false =
        rw (is_private_user, is_y, there, public) refl in
      let edge = find_pair-upsert (x, y) "accepted" g.follows in
      elim (Bool-cases guarded) [
        | inr off ↦
            rw
              (
                follow_user, good, opened, off, follow, with_ids, is_x, is_y, insert_follow, there,
                free, other,
              )
              (refl, edge)
        | inl on ↦
            let unflagged : (track_interaction now a c).0 ≡ false = rw on at calm in
            rw
              (
                follow_user, good, opened, on, unflagged, follow, with_ids, is_x, is_y,
                insert_follow, there, free, other,
              )
              (refl, edge)
      ]

  -- A user who was blocked by a public account can follow it again at once, if the table blocks had no row
  -- for the two and the guard, if there is one, sees no excess: the follow succeeds and its edge is there.
  pub blocked_can_follow :
      (guarded : Bool) (f : Faults) (now : ℕ) (blocker blocked : String) (x y : String) (u v : User)
      (g : Graph) (c : Counts)
      → (guarded && (track_interaction now blocked c).0) ≡ false
      → scan_uuid blocker ≡ some x
      → scan_uuid blocked ≡ some y
      → bad_pair blocked blocker ≡ false
      → find_user x g.users ≡ some u
      → u.is_private ≡ false
      → find_user y g.users ≡ some v
      → blocked_between y x g ≡ false
      → let g' = (block_user scan_uuid f blocker blocked g).1 in
        let (done_, g'') = (follow_user scan_uuid guarded well now blocked blocker g' c).0 in
        (done_ ≡ ok tt) × (find_pair (y, x) g''.follows ≡ some "accepted")
  unfolding block_user blocked_between
  blocked_can_follow guarded f now blocker blocked x y u v g c calm is_x is_y good there public
        other free =
      let g' = (block_user scan_uuid f blocker blocked g).1 in
      let (users, blocks) = block_user-keeps f blocker blocked x y g is_x is_y in
      follow_public guarded now blocked blocker y x v u g' c calm is_y is_x good (rw users there)
        public (rw users other) (rw blocks free)
