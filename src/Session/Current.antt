-- ===== src/Session/Current.antt =====
-- A running session was made from the settings that are in force, whatever the history of calls was.
use mathlib.Core.Path.{subst}
use mathlib.Core.Bool.{false≢true}
use libov.Prelude.{
  chosen, ℕ, ◌≡◌, ◌∙◌, refl, sym, true, false, not, ◌&&◌, ◌||◌, List, [], ◌∷◌, map, if◌then◌else◌,
  bytes_eq,
}
use libov.Real.{RealOps}
use libov.Settings.{AudioDevice, StageDevice, Stage}
use libov.Settings.Differ.{audio_ne}
use libov.Settings.Laws.{anonymous, anonymous_entry}
use libov.Session.{
  Call, session_begun, session_done, backend_begun, backend_done, port_gain, Render, Exit, returns,
  throws, ◌>>=◌, after, base_end_session, base_start_audiobackend, base_stop_audiobackend,
  require_session_restart,
}
use libov.Session.Tascar.{
  jack_name, manual, Verdict, runs, unreachable, unreadable, refused, World, prepare_session,
  make_session, start_session, end_session, restart_session_if_needed, adopt, start_audiobackend,
  stop_audiobackend, suspend_session, configure_audio_backend,
}

module _ {R : Type 0} (real : RealOps R) where
  abbrev pub entries : List (ℕ × StageDevice R) → List (ℕ × StageDevice R)
  entries m = map (anonymous_entry (real.of_nat 0)) m

  -- Two stages for which the same session is made: all is equal, but for the identifiers of channels
  -- and the gains of the devices, which are set while the session runs.
  pub record SameStage (s t : Stage R) : Type 0 where
    pub same_host : s.host ≡ t.host
    pub same_port : s.port ≡ t.port
    pub same_pin : s.pin ≡ t.pin
    pub same_settings : s.rendersettings ≡ t.rendersettings
    pub same_id : s.thisstagedeviceid ≡ t.thisstagedeviceid
    pub same_device : anonymous s.thisdevice ≡ anonymous t.thisdevice
    pub same_entries : entries s.stage ≡ entries t.stage

  pub SameStage-refl : (s : Stage R) → SameStage s s
  SameStage-refl s = record {
    same_host = refl;
    same_port = refl;
    same_pin = refl;
    same_settings = refl;
    same_id = refl;
    same_device = refl;
    same_entries = refl;
  }

  SameStage-trans : (s t u : Stage R) → SameStage s t → SameStage t u → SameStage s u
  SameStage-trans s t u a b = record {
    same_host = a.same_host ∙ b.same_host;
    same_port = a.same_port ∙ b.same_port;
    same_pin = a.same_pin ∙ b.same_pin;
    same_settings = a.same_settings ∙ b.same_settings;
    same_id = a.same_id ∙ b.same_id;
    same_device = a.same_device ∙ b.same_device;
    same_entries = a.same_entries ∙ b.same_entries;
  }

  -- The last session that was begun was made from such a stage.
  abbrev pub Started : List (Call R) → Stage R → Type 0
  Started [] t = ⊥
  Started (session_begun s ∷ cs) t = SameStage s t
  Started (session_done ∷ cs) t = Started cs t
  Started (backend_begun a ∷ cs) t = Started cs t
  Started (backend_done ∷ cs) t = Started cs t
  Started (port_gain p g ∷ cs) t = Started cs t

  pub Started-same :
      (cs : List (Call R)) (t u : Stage R) → SameStage t u → Started cs t → Started cs u
  Started-same [] t u e h = h
  Started-same (session_begun s ∷ cs) t u e h = SameStage-trans s t u h e
  Started-same (session_done ∷ cs) t u e h = Started-same cs t u e h
  Started-same (backend_begun a ∷ cs) t u e h = Started-same cs t u e h
  Started-same (backend_done ∷ cs) t u e h = Started-same cs t u e h
  Started-same (port_gain p g ∷ cs) t u e h = Started-same cs t u e h

  -- A session that is active and need not start again was made from the stage in force.
  abbrev pub IsCurrent : Render R → Type 0
  IsCurrent r = r.session_active ≡ true → r.restart_needed ≡ false → Started r.calls r.stage

  abbrev Kept : Exit R → Type 0
  Kept e = IsCurrent (after e)

  -- Where the session is inactive, or has to start again, there is nothing to show.
  pub idle : (r : Render R) → r.session_active ≡ false → IsCurrent r
  idle r e a n = absurd (false≢true (sym e ∙ a))

  pub due : (r : Render R) → r.restart_needed ≡ true → IsCurrent r
  due r e a n = absurd (false≢true (sym n ∙ e))

  -- The same session, on a stage like the one before.
  kept :
      (r r' : Render R)
      → r'.session_active ≡ r.session_active
      → r'.restart_needed ≡ r.restart_needed
      → r'.calls ≡ r.calls
      → SameStage r.stage r'.stage
      → IsCurrent r
      → IsCurrent r'
  kept r r' a n c e i active quiet =
      subst (λ cs. Started cs r'.stage) (sym c)
        (Started-same r.calls r.stage r'.stage e (i (sym a ∙ active) (sym n ∙ quiet)))

  pub make_session-IsCurrent :
      (v : Verdict) (r : Render R) → IsCurrent r → IsCurrent (after (make_session v r))
  unfolding make_session
  make_session-IsCurrent runs r i = i
  make_session-IsCurrent unreachable r i = i
  make_session-IsCurrent unreadable r i = i
  make_session-IsCurrent refused r i = i

  pub start_session-IsCurrent :
      (w : World R) (r : Render R) → IsCurrent (after (start_session real w r))
  unfolding start_session prepare_session
  start_session-IsCurrent w r =
      make_session-IsCurrent w.verdict (prepare_session real r) (λ a n. SameStage-refl _)

  pub end_session-IsCurrent : (r : Render R) → IsCurrent (end_session r)
  unfolding end_session base_end_session
  end_session-IsCurrent r = idle (end_session r) refl

  pub restart-IsCurrent :
      (w : World R) (r : Render R)
      → IsCurrent r
      → IsCurrent (after (restart_session_if_needed real w r))
  unfolding restart_session_if_needed
  restart-IsCurrent w r i =
      chosen Kept r.restart_needed _ _
        (λ needed. start_session-IsCurrent w (if r.session_active then end_session r else r))
        (λ quiet.
          chosen Kept r.session_active _ _ (λ active. i) (λ inactive. start_session-IsCurrent w r))

  pub start_audiobackend-IsCurrent :
      (w : World R) (r : Render R) → IsCurrent r → IsCurrent (after (start_audiobackend w r))
  unfolding start_audiobackend base_start_audiobackend adopt
  start_audiobackend-IsCurrent w r i =
      chosen Kept
        (bytes_eq r.audiodevice.drivername jack_name
          && (not (bytes_eq r.audiodevice.devicename manual) && not w.jack_runs))
        _ _ (λ fails. i) (λ starts. i)

  pub stop-IsCurrent :
      (r : Render R) → IsCurrent r → IsCurrent (stop_audiobackend (suspend_session r))
  unfolding stop_audiobackend base_stop_audiobackend suspend_session
  stop-IsCurrent r i =
      chosen (λ s. IsCurrent (stop_audiobackend s)) r.session_active _ _
        (λ active. end_session-IsCurrent (require_session_restart r)) (λ inactive. i)

  activated : Exit R → Exit R
  activated e = e >>= (λ r'. returns (record r' { audio_active = true }))

  activated-IsCurrent : (e : Exit R) → Kept e → Kept (activated e)
  unfolding activated
  activated-IsCurrent (returns r) i = i
  activated-IsCurrent (throws r) i = i

  pub configure-IsCurrent :
      (w : World R) (a : AudioDevice R) (r : Render R)
      → IsCurrent r
      → IsCurrent (after (configure_audio_backend real w a r))
  unfolding configure_audio_backend activated
  configure-IsCurrent w a r i =
      let no_restart = bytes_eq r.audiodevice.devicename manual && bytes_eq a.devicename manual in
      let taken : Render R = record r { audiodevice = a } in
      let stopped =
        if not no_restart && r.audio_active
        then stop_audiobackend (suspend_session taken)
        else taken in
      let ended : IsCurrent stopped =
        chosen IsCurrent (not no_restart && r.audio_active) _ _ (λ stops. stop-IsCurrent taken i)
          (λ goes_on. i) in
      chosen Kept (audio_ne real r.audiodevice a || not r.audio_active) _ _
        (λ changed.
          activated-IsCurrent (if no_restart then returns stopped else start_audiobackend w stopped)
            (chosen Kept no_restart _ _ (λ same. ended)
              (λ starts. start_audiobackend-IsCurrent w stopped ended)))
        (λ unchanged. i)
