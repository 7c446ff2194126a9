-- ===== src/Session/Failure.antt =====
-- What the start of a session leaves behind: one that fails, and one without this device.
use mathlib.Core.Path.{subst}
use mathlib.Core.Bool.{false≢true}
use libov.Prelude.{
  ◌≤◌, length, chosen, ℕ, suc, ◌≡◌, ◌∙◌, refl, sym, true, false, ◌&&◌, ◌||◌, none, some, List, [],
  ◌∷◌, arith,
}
use libov.Real.{RealOps}
use libov.Settings.{StageDevice}
use libov.Settings.Differ.{stage_ne}
use libov.Session.{
  in_room, Render, Exit, returns, throws, after, find_device, put_device, base_start_session,
  require_session_restart, base_set_stage, with_stage,
}
use libov.Session.Tascar.{
  blank_device, Verdict, runs, unreachable, unreadable, refused, World, prepare_session,
  places_receiver, enter_room, make_session, prepare_session, start_session,
  restart_session_if_needed, restart_if_stage_differs, set_stage, touch_device,
}
use libov.Session.Reach.{IsFresh, prepare_session-IsFresh}

module _ {R : Type 0} (real : RealOps R) where
  -- The call throws, and leaves a session that is active, without TASCAR and without a client, and that
  -- `restart_session_if_needed` leaves as it is, whatever it would meet.
  abbrev pub IsAbandoned : Exit R → Type 0
  IsAbandoned e =
      (e ≡ throws (after e))
      × (((after e).session_active ≡ true)
          × (((after e).has_tascar ≡ false)
              × (((after e).has_client ≡ false)
                  × ((w : World R)
                      → restart_session_if_needed real w (after e) ≡ returns (after e)))))

  restart-fresh :
      (w : World R) (r : Render R) → IsFresh r → restart_session_if_needed real w r ≡ returns r
  unfolding restart_session_if_needed
  restart-fresh w r fresh =
      chosen (λ e. e ≡ returns r) r.restart_needed _ _
        (λ needed. absurd (false≢true (sym fresh.1 ∙ needed)))
        (λ quiet.
          chosen (λ e. e ≡ returns r) r.session_active _ _ (λ active. refl)
            (λ inactive. absurd (false≢true (sym inactive ∙ fresh.0))))

  refused-IsAbandoned : (r : Render R) → IsFresh r → IsAbandoned (make_session refused r)
  unfolding make_session
  refused-IsAbandoned r fresh =
      let left : Render R = record r { has_tascar = false; has_client = false } in
      (refl, (fresh.0, (refl, (refl, λ w. restart-fresh w left fresh))))

  -- A session that TASCAR refuses is abandoned: the call throws, but leaves the session active, without
  -- TASCAR and without a client, and `restart_session_if_needed` then returns and does nothing.
  pub start_session-refused :
      (w : World R) (r : Render R) → w.verdict ≡ refused → IsAbandoned (start_session real w r)
  unfolding start_session
  start_session-refused w r e =
      subst (λ v. IsAbandoned (make_session v (prepare_session real r))) (sym e)
        (refused-IsAbandoned (prepare_session real r) (prepare_session-IsFresh real r))

  length-put_device :
      (id : ℕ) (d : StageDevice R) (m : List (ℕ × StageDevice R))
      → find_device id m ≡ none
      → length (put_device id d m) ≡ suc (length m)
  length-put_device id d [] e = refl
  length-put_device id d ((k, c) ∷ m) e = ground (arith, length-put_device id d m)

  longer_stage :
      (r : Render R) (m : List (ℕ × StageDevice R))
      → r.session_active ≡ true
      → suc (length m) ≤ length r.stage.stage
      → (set_stage real m r).restart_needed ≡ true
  unfolding set_stage restart_if_stage_differs base_set_stage require_session_restart stage_ne
  longer_stage r m active longer =
      chosen (λ (s : Render R). s.restart_needed ≡ true)
        (stage_ne real r.stage.stage m && r.session_active) _ _ (λ differs. refl)
        (λ same. ground (arith, same, active, longer))

  make_session-keeps :
      (v : Verdict) (r : Render R) (m : List (ℕ × StageDevice R))
      → r.session_active ≡ true
      → suc (length m) ≤ length r.stage.stage
      → (set_stage real m (after (make_session v r))).restart_needed ≡ true
  unfolding make_session
  make_session-keeps runs r m active longer =
      longer_stage
        (record r {
          has_tascar = true;
          session_ready = true;
          has_client = in_room r || r.has_client;
        })
        m active longer
  make_session-keeps unreachable r m active longer = longer_stage r m active longer
  make_session-keeps unreadable r m active longer =
      longer_stage (record r { has_client = in_room r || r.has_client }) m active longer
  make_session-keeps refused r m active longer =
      longer_stage (record r { has_tascar = false; has_client = false }) m active longer

  touch_device-length :
      (id : ℕ) (r : Render R)
      → find_device id r.stage.stage ≡ none
      → suc (length r.stage.stage) ≤ length (touch_device real id r).stage.stage
  unfolding touch_device
  touch_device-length id r e =
      let longer = length-put_device id (blank_device real) r.stage.stage e in
      subst
        (λ o.
          let t : Render R = elim o [
            | none ↦ with_stage r (put_device id (blank_device real) r.stage.stage)
            | some d ↦ r
          ] in
          suc (length r.stage.stage) ≤ length t.stage.stage)
        (sym e) (omega (arith, longer))

  put_device-longer :
      (id : ℕ) (d : StageDevice R) (m : List (ℕ × StageDevice R))
      → length m ≤ length (put_device id d m)
  put_device-longer id d [] = ground arith
  put_device-longer id d ((k, c) ∷ m) = ground (arith, put_device-longer id d m)

  touch_device-longer :
      (id : ℕ) (r : Render R) → length r.stage.stage ≤ length (touch_device real id r).stage.stage
  unfolding touch_device
  touch_device-longer id r =
      elim (find_device id r.stage.stage)
        as (λ o.
          let t : Render R = elim o [
            | none ↦ with_stage r (put_device id (blank_device real) r.stage.stage)
            | some d ↦ r
          ] in
          length r.stage.stage ≤ length t.stage.stage) [
            | none ↦ put_device-longer id (blank_device real) r.stage.stage
            | some d ↦ omega arith
          ]

  enter_room-length :
      (r : Render R)
      → find_device r.stage.thisstagedeviceid r.stage.stage ≡ none
      → suc (length r.stage.stage) ≤ length (enter_room real r).stage.stage
  unfolding enter_room
  enter_room-length r e =
      let listed = touch_device real r.stage.thisstagedeviceid r in
      let longer = touch_device-length r.stage.thisstagedeviceid r e in
      let more = touch_device-longer listed.stage.rendersettings.id listed in
      chosen (λ (t : Render R). suc (length r.stage.stage) ≤ length t.stage.stage)
        (places_receiver real listed) _ _ (λ places. omega (arith, longer, more))
        (λ no_place. longer)

  -- In a room whose stage does not list this device, the session asks for its own restart: to start it
  -- inserts a blank entry, so that setting the very same stage again counts as a change.
  pub start_session-unlisted :
      (w : World R) (r : Render R)
      → in_room r ≡ true
      → find_device r.stage.thisstagedeviceid r.stage.stage ≡ none
      → (set_stage real r.stage.stage (after (start_session real w r))).restart_needed ≡ true
  unfolding start_session prepare_session base_start_session in_room
  start_session-unlisted w r room unlisted =
      let begun = base_start_session r in
      make_session-keeps w.verdict (prepare_session real r) r.stage.stage
        (prepare_session-IsFresh real r).0
        (chosen (λ (s : Render R). suc (length r.stage.stage) ≤ length s.stage.stage)
          (in_room begun) _ _ (λ yes. enter_room-length begun unlisted)
          (λ no. absurd (false≢true (sym no ∙ room))))
