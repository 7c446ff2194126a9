-- ===== src/Session/Orderly.antt =====
-- The order in which the session and the audio backend start and end.
use mathlib.Core.Bool.{false≢true}
use libov.Prelude.{
  chosen, ℕ, ◌≡◌, ◌∙◌, refl, sym, Bool, true, false, not, ◌&&◌, ◌||◌, none, some, List, [], ◌∷◌,
  if◌then◌else◌, bytes_eq, arith,
}
use libov.Real.{RealOps}
use libov.Settings.{AudioDevice}
use libov.Settings.Differ.{audio_ne}
use libov.Session.{
  Call, session_begun, session_done, backend_begun, backend_done, port_gain, in_room, Render, Exit,
  returns, throws, ◌>>=◌, after, find_device, put_device, base_start_session, base_end_session,
  base_start_audiobackend, base_stop_audiobackend, require_session_restart, with_stage,
}
use libov.Session.Tascar.{
  jack_name, blank_device, manual, Verdict, runs, unreachable, unreadable, refused, World,
  prepare_session, places_receiver, enter_room, make_session, prepare_session, start_session,
  end_session, adopt, start_audiobackend, stop_audiobackend, suspend_session,
  configure_audio_backend, touch_device,
}

-- Whether a session, or a backend, runs, by what was last started or ended.
abbrev pub session_runs : {R : Type 0} → List (Call R) → Bool
session_runs [] = false
session_runs (session_begun s ∷ cs) = true
session_runs (session_done ∷ cs) = false
session_runs (backend_begun a ∷ cs) = session_runs cs
session_runs (backend_done ∷ cs) = session_runs cs
session_runs (port_gain p g ∷ cs) = session_runs cs

abbrev pub backend_runs : {R : Type 0} → List (Call R) → Bool
backend_runs [] = false
backend_runs (session_begun s ∷ cs) = backend_runs cs
backend_runs (session_done ∷ cs) = backend_runs cs
backend_runs (backend_begun a ∷ cs) = true
backend_runs (backend_done ∷ cs) = false
backend_runs (port_gain p g ∷ cs) = backend_runs cs

-- No session is begun while another runs, no backend while another runs, no backend is stopped under
-- a session, and gains are set only while one runs.
abbrev pub IsOrderly : {R : Type 0} → List (Call R) → Type 0
IsOrderly [] = Unit
IsOrderly (session_begun s ∷ cs) = (session_runs cs ≡ false) × IsOrderly cs
IsOrderly (session_done ∷ cs) = IsOrderly cs
IsOrderly (backend_begun a ∷ cs) = (backend_runs cs ≡ false) × IsOrderly cs
IsOrderly (backend_done ∷ cs) = (session_runs cs ≡ false) × IsOrderly cs
IsOrderly (port_gain p g ∷ cs) = (session_runs cs ≡ true) × IsOrderly cs

-- The flags of the renderer agree with the calls.
abbrev pub Agree : {R : Type 0} → List (Call R) → Bool → Bool → Type 0
Agree cs session audio =
    IsOrderly cs × ((session_runs cs ≡ session) × (audio ≡ false → backend_runs cs ≡ false))

abbrev pub IsOrdered : {R : Type 0} → Render R → Type 0
IsOrdered r = Agree r.calls r.session_active r.audio_active

module _ {R : Type 0} where
  abbrev pub KeptOrder : Exit R → Type 0
  KeptOrder e = IsOrdered (after e)

  pub end_session-IsOrdered : (r : Render R) → IsOrdered r → IsOrdered (end_session r)
  unfolding end_session base_end_session
  end_session-IsOrdered r (orderly, (session, audio)) = (orderly, (refl, audio))

  pub stop-IsOrdered :
      (r : Render R) → r.session_active ≡ false → IsOrdered r → IsOrdered (stop_audiobackend r)
  unfolding stop_audiobackend base_stop_audiobackend
  stop-IsOrdered r ended (orderly, (session, audio)) =
      ((session ∙ ended, orderly), (session, λ e. refl))

  pub start_audiobackend-IsOrdered :
      (w : World R) (r : Render R)
      → r.audio_active ≡ false
      → IsOrdered r
      → IsOrdered (after (start_audiobackend w r))
  unfolding start_audiobackend base_start_audiobackend adopt
  start_audiobackend-IsOrdered w r stopped (orderly, (session, audio)) =
      let o : Agree (backend_begun r.audiodevice ∷ r.calls) r.session_active true =
        ((audio stopped, orderly), (session, λ e. absurd (false≢true (sym e)))) in
      chosen KeptOrder
        (bytes_eq r.audiodevice.drivername jack_name
          && (not (bytes_eq r.audiodevice.devicename manual) && not w.jack_runs))
        _ _ (λ fails. o) (λ starts. o)

  activate-IsOrdered :
      (e : Exit R)
      → KeptOrder e
      → KeptOrder (e >>= (λ r'. returns (record r' { audio_active = true })))
  activate-IsOrdered (returns r) (orderly, (session, audio)) =
      (orderly, (session, λ e. absurd (false≢true (sym e))))
  activate-IsOrdered (throws r) o = o

  suspend-IsOrdered : (r : Render R) → IsOrdered r → IsOrdered (suspend_session r)
  unfolding suspend_session require_session_restart
  suspend-IsOrdered r o =
      chosen IsOrdered r.session_active _ _
        (λ active. end_session-IsOrdered (require_session_restart r) o) (λ inactive. o)

  suspended : (r : Render R) → (suspend_session r).session_active ≡ false
  unfolding suspend_session end_session base_end_session
  suspended r =
      chosen (λ (s : Render R). s.session_active ≡ false) r.session_active _ _ (λ active. refl)
        (λ inactive. inactive)

module _ {R : Type 0} (real : RealOps R) where
  pub configure-IsOrdered :
      (w : World R) (a : AudioDevice R) (r : Render R)
      → IsOrdered r
      → IsOrdered (after (configure_audio_backend real w a r))
  unfolding configure_audio_backend stop_audiobackend base_stop_audiobackend
  configure-IsOrdered w a r o =
      let no_restart = bytes_eq r.audiodevice.devicename manual && bytes_eq a.devicename manual in
      let taken : Render R = record r { audiodevice = a } in
      let stopped =
        if not no_restart && r.audio_active
        then stop_audiobackend (suspend_session taken)
        else taken in
      let ended : IsOrdered stopped =
        chosen IsOrdered (not no_restart && r.audio_active) _ _
          (λ stops.
            stop-IsOrdered (suspend_session taken) (suspended taken) (suspend-IsOrdered taken o))
          (λ goes_on. o) in
      let silent : no_restart ≡ false → stopped.audio_active ≡ false = λ again.
        chosen (λ (s : Render R). s.audio_active ≡ false) (not no_restart && r.audio_active) _ _
          (λ stops. refl) (λ goes_on. ground (arith, again, goes_on)) in
      chosen KeptOrder (audio_ne real r.audiodevice a || not r.audio_active) _ _
        (λ changed.
          activate-IsOrdered (if no_restart then returns stopped else start_audiobackend w stopped)
            (chosen KeptOrder no_restart _ _ (λ same. ended)
              (λ starts. start_audiobackend-IsOrdered w stopped (silent starts) ended)))
        (λ unchanged. o)

  -- What is true of the calls and flags stays true: only the stage has changed.
  pub touch_device-keeps :
      (P : List (Call R) → Bool → Bool → Type 0) (id : ℕ) (r : Render R)
      → P r.calls r.session_active r.audio_active
      → P
          (touch_device real id r).calls
          (touch_device real id r).session_active
          (touch_device real id r).audio_active
  unfolding touch_device
  touch_device-keeps P id r p =
      elim (find_device id r.stage.stage)
        as (λ o.
          let t : Render R = elim o [
            | none ↦ with_stage r (put_device id (blank_device real) r.stage.stage)
            | some d ↦ r
          ] in
          P t.calls t.session_active t.audio_active) [ none ↦ p | some d ↦ p ]

  enter_room-keeps :
      (P : List (Call R) → Bool → Bool → Type 0) (r : Render R)
      → P r.calls r.session_active r.audio_active
      → P
          (enter_room real r).calls
          (enter_room real r).session_active
          (enter_room real r).audio_active
  unfolding enter_room
  enter_room-keeps P r p =
      let listed = touch_device real r.stage.thisstagedeviceid r in
      let p' = touch_device-keeps P r.stage.thisstagedeviceid r p in
      chosen (λ (t : Render R). P t.calls t.session_active t.audio_active)
        (places_receiver real listed) _ _
        (λ places. touch_device-keeps P listed.stage.rendersettings.id listed p') (λ no_place. p')

  make_session-IsOrdered : (v : Verdict) (r : Render R) → IsOrdered r → KeptOrder (make_session v r)
  unfolding make_session
  make_session-IsOrdered runs r o = o
  make_session-IsOrdered unreachable r o = o
  make_session-IsOrdered unreadable r o = o
  make_session-IsOrdered refused r o = o

  pub start_session-IsOrdered :
      (w : World R) (r : Render R)
      → r.session_active ≡ false
      → IsOrdered r
      → IsOrdered (after (start_session real w r))
  unfolding start_session prepare_session base_start_session
  start_session-IsOrdered w r ended (orderly, (session, audio)) =
      let begun = base_start_session r in
      let made = if in_room begun then enter_room real begun else begun in
      let begins : List (Call R) → Bool → Bool → Type 0 =
        λ cs s a. Agree (session_begun made.stage ∷ cs) s a in
      let o : Agree (session_begun made.stage ∷ r.calls) true r.audio_active =
        ((session ∙ ended, orderly), (refl, audio)) in
      make_session-IsOrdered w.verdict (prepare_session real r) (
        chosen (λ (m : Render R). begins m.calls m.session_active m.audio_active) (in_room begun) _
          _ (λ room. enter_room-keeps begins begun o) (λ alone. o))
