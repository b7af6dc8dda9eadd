-- ===== src/Social/Service.antt =====
-- The functions of backend/internal/modules/social/service/social_service.go that change the follow graph or
-- decide by it, and `TrackInteraction` of veritas_content_guard.go, with instants in nanoseconds.
use merope.Prelude.{
  ℕ, Bool, true, false, not, ◌||◌, Option, List, [], ◌∷◌, ◌++◌, String, if◌then◌else◌, ltb, length,
}
use merope.Prelude.Text.{str_eq, is_empty, trim_space}
use merope.Prelude.Outcome.{Result, ok, err}
use merope.Window.Admission.{covered}
use merope.Social.Graph.{
  Graph, Error, Faults, Done, invalid_relationship, invalid_request, invalid_status,
  private_account, forbidden, not_private, excessive, follow, unfollow, block, is_blocked,
  is_private_user, can_view_profile, send_follow_request, respond,
}

-- The guard's `interactions`.
abbrev pub Counts : Type 0
Counts = String → List ℕ

-- `TrackInteraction`
unfoldable pub track_interaction : ℕ → String → Counts → Bool × Counts
unfolding covered
track_interaction now user counts =
    let valid = covered 300000000000 now (counts user ++ (now ∷ [])) in
    (ltb 50 (length valid), λ u. if str_eq u user then valid else counts u)

abbrev pub bad_pair : String → String → Bool
bad_pair a b = is_empty a || is_empty b || str_eq a b

-- The end of a call that has succeeded so far, or its error.
abbrev pub after : {A : Type 0} → Result Error A → Graph → (A → Done) → Done
after (err e) g next = (err e, g)
after (ok a) g next = next a

abbrev pub then_do : Done → (Graph → Done) → Done
then_do (err e, g) next = (err e, g)
then_do (ok u, g) next = next g

module _ (scan_uuid : String → Option String) where
  -- `Follow`; `guarded` says that there is a guard.
  unfoldable pub follow_user : Bool → Faults → ℕ → String → String → Graph → Counts → Done × Counts
  unfolding is_private_user track_interaction follow
  follow_user guarded f now follower following g counts =
      if bad_pair follower following
      then ((err invalid_relationship, g), counts)
      else elim (is_private_user scan_uuid f 0 following g) [
        | err e ↦ ((err e, g), counts)
        | ok true ↦ ((err private_account, g), counts)
        | ok false ↦
            let (flagged, counts') = track_interaction now follower counts in
            if guarded
            then (
              if flagged then (err excessive, g) else follow scan_uuid f 1 follower following g,
              counts',
            )
            else (follow scan_uuid f 1 follower following g, counts)
      ]

  -- `Unfollow`
  unfoldable pub unfollow_user : Faults → String → String → Graph → Done
  unfolding unfollow
  unfollow_user f follower following g =
      if bad_pair follower following
      then (err invalid_relationship, g)
      else unfollow scan_uuid f follower following g

  -- `RequestFollow`
  unfoldable pub request_follow : Faults → String → String → Graph → Done
  unfolding is_private_user is_blocked send_follow_request
  request_follow f follower following g =
      if bad_pair follower following
      then (err invalid_request, g)
      else after (is_private_user scan_uuid f 0 following g) g (λ is_private.
        if not is_private
        then (err not_private, g)
        else after (is_blocked scan_uuid f 1 follower following g) g (λ blocked.
          if blocked
          then (err private_account, g)
          else send_follow_request scan_uuid f 2 follower following g))

  -- `HandleFollowRequest`
  unfoldable pub handle_follow_request : Faults → String → String → String → Graph → Done
  unfolding respond follow
  handle_follow_request f viewer follower status g =
      if not (str_eq status "accepted" || str_eq status "rejected" || str_eq status "cancelled")
      then (err invalid_status, g)
      else if bad_pair viewer follower
      then (err invalid_request, g)
      else then_do (respond scan_uuid f 0 follower viewer status g) (λ g'.
        if str_eq status "accepted" then follow scan_uuid f 1 follower viewer g' else (ok tt, g'))

  -- `BlockUser`
  unfoldable pub block_user : Faults → String → String → Graph → Done
  unfolding block
  block_user f blocker blocked g =
      if bad_pair blocker blocked
      then (err invalid_relationship, g)
      else block scan_uuid f blocker blocked g

  -- The check of `GetProfile`, before it reads the profile.
  unfoldable pub check_profile : Faults → String → String → Graph → Result Error (Unit {0})
  unfolding can_view_profile
  check_profile f viewer user g =
      let v = trim_space viewer in
      let u = trim_space user in
      if is_empty v || is_empty u
      then err invalid_relationship
      else elim (can_view_profile scan_uuid f 0 v u g) [
        | err e ↦ err e
        | ok false ↦ err forbidden
        | ok true ↦ ok tt
      ]
