-- ===== src/Session/Backend.antt =====
-- What an audio backend that cannot be started leaves behind.
use mathlib.Core.Path.{subst}
use libov.Prelude.{
  chosen, ◌≡◌, ◌∙◌, refl, ap, Bool, true, false, not, ◌&&◌, ◌||◌, if◌then◌else◌, bytes_eq, arith,
}
use libov.Real.{RealOps}
use libov.Settings.{AudioDevice}
use libov.Settings.Differ.{audio_ne}
use libov.Settings.Laws.{IsExact}
use libov.Session.{
  Render, Exit, returns, throws, ◌>>=◌, after, base_end_session, base_start_audiobackend,
  base_stop_audiobackend, require_session_restart,
}
use libov.Session.Tascar.{
  jack_name, manual, World, end_session, start_audiobackend, stop_audiobackend, suspend_session,
  configure_audio_backend,
}
use libov.Settings.Laws.{audio_ne_iff}

module _ {R : Type 0} (real : RealOps R) where
  -- The call throws, and leaves a backend that counts as active with this device, and is not configured
  -- again for it.
  abbrev pub IsDead : AudioDevice R → Exit R → Type 0
  IsDead a e =
      (e ≡ throws (after e))
      × (((after e).audiodevice ≡ a)
          × (((after e).audio_active ≡ true)
              × ((w : World R) → configure_audio_backend real w a (after e) ≡ returns (after e))))

module _ {R : Type 0} (real : RealOps R) (exact : IsExact real) where
  configured_before :
      (w : World R) (r : Render R)
      → r.audio_active ≡ true
      → configure_audio_backend real w r.audiodevice r ≡ returns r
  unfolding configure_audio_backend
  configured_before w r active =
      chosen (λ e. e ≡ returns r) (audio_ne real r.audiodevice r.audiodevice || not r.audio_active)
        _ _
        (λ changed.
          ground
            (arith, active, changed, (audio_ne_iff real exact r.audiodevice r.audiodevice).1 refl))
        (λ unchanged. refl)

  activate : Exit R → Exit R
  activate e = e >>= (λ r. returns (record r { audio_active = true }))

  backend-IsDead :
      (w : World R) (r : Render R)
      → bytes_eq r.audiodevice.drivername jack_name ≡ true
      → bytes_eq r.audiodevice.devicename manual ≡ false
      → w.jack_runs ≡ false
      → IsDead real r.audiodevice (activate (start_audiobackend w r))
  unfolding start_audiobackend activate base_start_audiobackend
  backend-IsDead w r jack device no_jack =
      chosen (λ e. IsDead real r.audiodevice (activate e))
        (bytes_eq r.audiodevice.drivername jack_name
          && (not (bytes_eq r.audiodevice.devicename manual) && not w.jack_runs))
        _ _
        (λ fails.
          (refl, (refl, (refl, λ w'. configured_before w' (base_start_audiobackend r) refl))))
        (λ starts. ground (arith, starts, jack, device, no_jack))

  stopped_device :
      (b : Bool) (r : Render R)
      → (if b then stop_audiobackend (suspend_session r) else r).audiodevice ≡ r.audiodevice
  unfolding stop_audiobackend base_stop_audiobackend suspend_session end_session base_end_session
      require_session_restart
  stopped_device b r =
      chosen (λ (s : Render R). s.audiodevice ≡ r.audiodevice) b _ _
        (λ stops.
          chosen (λ (s : Render R). s.audiodevice ≡ r.audiodevice) r.session_active _ _
            (λ active. refl) (λ inactive. refl))
        (λ goes_on. refl)

  -- Where JACK cannot be started for another device, the call throws, but the audio backend counts as
  -- active with that device, so that the same configuration returns at once when it comes again. The
  -- device names are those of JACK and not "manual".
  pub configure-no_jack :
      (w : World R) (a : AudioDevice R) (r : Render R)
      → bytes_eq a.drivername jack_name ≡ true
      → bytes_eq a.devicename manual ≡ false
      → w.jack_runs ≡ false
      → audio_ne real r.audiodevice a ≡ true
      → IsDead real a (configure_audio_backend real w a r)
  unfolding configure_audio_backend activate
  configure-no_jack w a r jack device no_jack differs =
      let no_restart = bytes_eq r.audiodevice.devicename manual && bytes_eq a.devicename manual in
      let taken : Render R = record r { audiodevice = a } in
      let stopped =
        if not no_restart && r.audio_active
        then stop_audiobackend (suspend_session taken)
        else taken in
      let same : stopped.audiodevice ≡ a =
        stopped_device (not no_restart && r.audio_active) taken in
      chosen (IsDead real a) (audio_ne real r.audiodevice a || not r.audio_active) _ _
        (λ changed.
          chosen (λ e. IsDead real a (activate e)) no_restart _ _
            (λ both. ground (arith, both, device))
            (λ starts.
              subst (λ b. IsDead real b (activate (start_audiobackend w stopped))) same
                (backend-IsDead w stopped
                  (ap (λ (b : AudioDevice R). bytes_eq b.drivername jack_name) same ∙ jack)
                  (ap (λ (b : AudioDevice R). bytes_eq b.devicename manual) same ∙ device)
                  no_jack)))
        (λ unchanged. ground (arith, unchanged, differs))
