-- ===== src/Session/History.antt =====
-- The functions that change the settings of a session, and whole histories of calls.
use libov.Prelude.{
  chosen, ℕ, ◌≡◌, refl, ap, sym, false, not, ◌&&◌, ◌||◌, List, [], ◌∷◌, ◌==◌, bytes_eq,
  bytes_eq_sound, arith,
}
use libov.Real.{RealOps}
use libov.Message.{Bytes}
use libov.Settings.{StageDevice, RenderSettings, Stage}
use libov.Settings.Differ.{device_ne, settings_ne, stage_ne}
use libov.Settings.Laws.{IsExact, anonymous, anonymous_entry, device_ne_iff, stage_ne_sound}
use libov.Session.{
  Render, require_session_restart, base_clear_stage, base_set_stage_device_gain,
  base_set_render_settings, with_stage,
}
use libov.Session.Tascar.{
  end_session, set_thisdev, set_relay_server, restart_if_stage_differs, clear_stage,
  set_render_settings,
}
use libov.Session.{gain_device}
use libov.Session.Current.{
  SameStage, Started-same, IsCurrent, due, idle, entries, end_session-IsCurrent,
}

module _ {R : Type 0} (real : RealOps R) where
  pub clear_stage-IsCurrent : (r : Render R) → IsCurrent real (clear_stage r)
  unfolding clear_stage base_clear_stage
  clear_stage-IsCurrent r =
      chosen (IsCurrent real) r.session_active _ _
        (λ active. end_session-IsCurrent real (base_clear_stage r))
        (λ inactive. idle real (base_clear_stage r) inactive)

  pub set_render_settings-IsCurrent :
      (settings : RenderSettings R) (id : ℕ) (r : Render R)
      → IsCurrent real r
      → IsCurrent real (set_render_settings real settings id r)
  unfolding set_render_settings require_session_restart
  set_render_settings-IsCurrent settings id r i =
      chosen (IsCurrent real)
        (settings_ne real settings r.stage.rendersettings || not (id == r.stage.thisstagedeviceid))
        _ _
        (λ changed.
          due real (require_session_restart (base_set_render_settings settings id r)) refl)
        (λ unchanged. i)

  -- The gains are no part of what the session is made from.
  gain_device-entries :
      (id : ℕ) (g : R) (m : List (ℕ × StageDevice R))
      → entries real (gain_device id g m) ≡ entries real m
  gain_device-entries id g [] = refl
  gain_device-entries id g ((k, d) ∷ m) =
      chosen (λ l. entries real l ≡ entries real ((k, d) ∷ m)) (k == id) _ _ (λ here. refl)
        (λ there. ap (λ l. anonymous_entry (real.of_nat 0) (k, d) ∷ l) (gain_device-entries id g m))

  with_thisdev : StageDevice R → Render R → Render R
  with_thisdev d r = let s = r.stage in record r { stage = record s { thisdevice = d } }

  same_thisdev :
      (s : Stage R) (d : StageDevice R)
      → anonymous s.thisdevice ≡ anonymous d
      → SameStage real s (record s { thisdevice = d })
  same_thisdev s d e = record {
    same_host = refl;
    same_port = refl;
    same_pin = refl;
    same_settings = refl;
    same_id = refl;
    same_device = e;
    same_entries = refl;
  }

  same_stage :
      (s : Stage R) (m : List (ℕ × StageDevice R))
      → entries real s.stage ≡ entries real m
      → SameStage real s (record s { stage = m })
  same_stage s m e = record {
    same_host = refl;
    same_port = refl;
    same_pin = refl;
    same_settings = refl;
    same_id = refl;
    same_device = refl;
    same_entries = e;
  }

  same_server :
      (s : Stage R) (host : Bytes) (port pin : ℕ)
      → (not (bytes_eq s.host host) || (not (s.port == port) || not (s.pin == pin))) ≡ false
      → SameStage real s (record s { host = host; port = port; pin = pin })
  same_server s host port pin h = record {
    same_host = bytes_eq_sound s.host host (ground arith);
    same_port = ground arith;
    same_pin = ground arith;
    same_settings = refl;
    same_id = refl;
    same_device = refl;
    same_entries = refl;
  }

  pub base_gain-IsCurrent :
      (id : ℕ) (g : R) (r : Render R)
      → IsCurrent real r
      → IsCurrent real (base_set_stage_device_gain id g r)
  unfolding base_set_stage_device_gain
  base_gain-IsCurrent id g r i active quiet =
      Started-same real r.calls r.stage (base_set_stage_device_gain id g r).stage
        (same_stage r.stage (gain_device id g r.stage.stage)
          (sym (gain_device-entries id g r.stage.stage)))
        (i active quiet)

  pub set_relay_server-IsCurrent :
      (host : Bytes) (port pin : ℕ) (r : Render R)
      → IsCurrent real r
      → IsCurrent real (set_relay_server host port pin r)
  unfolding set_relay_server require_session_restart
  set_relay_server-IsCurrent host port pin r i =
      let s = r.stage in
      let changed = not (bytes_eq s.host host) || (not (s.port == port) || not (s.pin == pin)) in
      let moved : Render R = record r {
        stage = record s { host = host; port = port; pin = pin };
      } in
      chosen (IsCurrent real) (r.session_active && changed) _ _
        (λ ends. due real (require_session_restart (end_session moved)) refl)
        (λ stays active quiet.
          Started-same real r.calls s moved.stage (same_server s host port pin (ground arith))
            (i active quiet))

module _ {R : Type 0} (real : RealOps R) (exact : IsExact real) where
  pub set_thisdev-IsCurrent :
      (d : StageDevice R) (r : Render R) → IsCurrent real r → IsCurrent real (set_thisdev real d r)
  unfolding set_thisdev require_session_restart with_thisdev
  set_thisdev-IsCurrent d r i =
      chosen (λ q. IsCurrent real (with_thisdev real d q)) (device_ne real d r.stage.thisdevice) _ _
        (λ changed. due real (with_thisdev real d (require_session_restart r)) refl)
        (λ unchanged active quiet.
          Started-same real r.calls r.stage (with_thisdev real d r).stage
            (same_thisdev real r.stage d
              (sym ((device_ne_iff real exact d r.stage.thisdevice).0 unchanged)))
            (i active quiet))

  pub restart_if-IsCurrent :
      (r : Render R) (m : List (ℕ × StageDevice R))
      → IsCurrent real r
      → IsCurrent real (restart_if_stage_differs real r (with_stage r m))
  unfolding restart_if_stage_differs require_session_restart
  restart_if-IsCurrent r m i =
      chosen (IsCurrent real) (stage_ne real r.stage.stage m && r.session_active) _ _
        (λ changed. due real (require_session_restart (with_stage r m)) refl)
        (λ unchanged active quiet.
          Started-same real r.calls r.stage (with_stage r m).stage
            (same_stage real r.stage m
              (stage_ne_sound real exact (real.of_nat 0) r.stage.stage m (ground arith)))
            (i active quiet))
