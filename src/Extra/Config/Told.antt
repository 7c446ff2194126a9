-- ===== src/Extra/Config/Told.antt =====
-- Each section of `set_extra_config` (src/ov_render_tascar.cc) asks for a restart where it changes a
-- watched setting.
use libov.Prelude.{◌∷◌, refl, Bool, false, not, ◌&&◌, chosen, if◌then◌else◌, bytes_eq_sound}
use libov.Real.{RealOps}
use libov.Message.{Bytes}
use libov.Settings.Differ.{bool_eq}
use libov.Session.{Render}
use libov.Lobby.{JsonApi, bool_of, real_of, int_of}
use libov.Lobby.Key
use libov.Extra.{Extra, Metronome, metronome_ne, deadline_set, forwarding_expedited, metronome_sent}
use libov.Lobby.Key.{Name}
use libov.Extra.Draft.{Draft, done, fetch, with_extra, asks_restart}
use libov.Extra.Sections.{
  set_general, set_data_streams, set_tuner, set_spkcalib, set_network, set_headtrack, set_monitor,
  update_if_string, set_deadline, set_forwarding,
}
use libov.Extra.Media.{
  set_render, metronome_of_json, adopt_metronome, set_metronome, set_jackrec, set_mcrec,
}
use libov.Extra.Config.Watched.{
  Tells, UpdateTells, same-Tells, bind-Tells, fetch-Tells, update-Tells, assign-Tells, also,
  take_over-Tells, bool_eq_sound, no_flag,
}

module _ {J R : Type 0} (json : JsonApi J R) (real : RealOps R) where
  pub set_data_streams-Tells :
      (js : J) (d : Draft R) → UpdateTells real d (set_data_streams json real js d)
  unfolding set_data_streams
  set_data_streams-Tells js d = update-Tells real _ _ _ _ d

  pub set_tuner-Tells : (js : J) (d : Draft R) → UpdateTells real d (set_tuner json real js d)
  unfolding set_tuner
  set_tuner-Tells js d = also real _ _ _ _ d _ (also real _ _ _ _ d _ (update-Tells real _ _ _ _ d))

  pub set_jackrec-Tells : (js : J) (d : Draft R) → UpdateTells real d (set_jackrec json real js d)
  unfolding set_jackrec
  set_jackrec-Tells js d = also real _ _ _ _ d _ (update-Tells real _ _ _ _ d)

  pub set_mcrec-Tells : (js : J) (d : Draft R) → UpdateTells real d (set_mcrec json real js d)
  unfolding set_mcrec
  set_mcrec-Tells js d = also real _ _ _ _ d _ (
      also real _ _ _ _ d _ (
        also real _ _ _ _ d _ (
          also real _ _ _ _ d _ (
            also real _ _ _ _ d _ (
              also real _ _ _ _ d _
                (also real _ _ _ _ d _ (also real _ _ _ _ d _ (update-Tells real _ _ _ _ d))))))))

  pub set_monitor-Tells : (js : J) (d : Draft R) → UpdateTells real d (set_monitor json real js d)
  unfolding set_monitor
  set_monitor-Tells js d =
      also real _ _ _ _ d _ (also real _ _ _ _ d _ (take_over-Tells real _ _ d (λ v e. refl)))

  pub set_render-Tells : (js : J) (d : Draft R) → UpdateTells real d (set_render json real js d)
  unfolding set_render
  set_render-Tells js d = also real _ _ _ _ d _ (
      also real _ _ _ _ d _ (
        also real _ _ _ _ d _ (
          also real _ _ _ _ d _ (
            also real _ _ _ _ d _ (
              also real _ _ _ _ d _ (
                also real _ _ _ _ d _ (
                  also real _ _ _ _ d _ (
                    also real _ _ _ _ d _
                      (assign-Tells real _ _ _ _ d bool_eq_sound (λ e. refl))))))))))

  pub set_headtrack-Tells :
      (js : J) (d : Draft R) → UpdateTells real d (set_headtrack json real js d)
  unfolding set_headtrack
  set_headtrack-Tells js d =
      bind-Tells real d _ _
        (bind-Tells real d _ _ (take_over-Tells real _ _ d (λ v e. refl))
          (λ d'. take_over-Tells real _ _ d' (λ v e. refl)))
        (λ d'. take_over-Tells real _ _ d' (λ v e. refl))

  pub set_general-Tells : (js : J) (d : Draft R) → UpdateTells real d (set_general json real js d)
  unfolding set_general
  set_general-Tells js d =
      bind-Tells real d _ _
        (bind-Tells real d _ _
          (bind-Tells real d _ _
            (bind-Tells real d _ _
              (fetch-Tells real (json.member js Key.reclevelanalyser) d _
                (λ r. update-Tells real _ _ _ _ d))
              (λ d'. assign-Tells real _ _ _ _ d' bool_eq_sound (λ e. refl)))
            (λ d'. assign-Tells real _ _ _ _ d' bytes_eq_sound (λ e. refl)))
          (λ d'. assign-Tells real _ _ _ _ d' bytes_eq_sound (λ e. refl)))
        (λ d'.
          fetch-Tells real (json.member js Key.render) d' _
            (λ r. assign-Tells real _ _ _ _ d' bool_eq_sound (λ e. refl)))

  string-Tells :
      (js : J) (k : Name) (get : Extra R → Bytes) (set : Bytes → Extra R → Extra R) (d : Draft R)
      → UpdateTells real d (update_if_string json real js k get set d)
  string-Tells js k get set d = fetch-Tells real (json.member js k) d _ (λ v.
      chosen (UpdateTells real d) (json.is_string v) _ _ (λ string. update-Tells real _ _ _ _ d)
        (λ other. same-Tells real d))

  pub set_spkcalib-Tells : (js : J) (d : Draft R) → UpdateTells real d (set_spkcalib json real js d)
  unfolding set_spkcalib
  set_spkcalib-Tells js d =
      bind-Tells real d _ _
        (bind-Tells real d _ _
          (bind-Tells real d _ _ (also real _ _ _ _ d _ (update-Tells real _ _ _ _ d))
            (string-Tells js Key.spkcalib_vfreq _ _))
          (string-Tells js Key.spkcalib_vgainl _ _))
        (string-Tells js Key.spkcalib_vgainr _ _)

  set_deadline-Tells :
      (r : Render R) (v : R) (d : Draft R) → Tells real d (set_deadline json real r v d)
  set_deadline-Tells r v d =
      let changed = let e = d.extra in with_extra d (record e { sorter_deadline = v }) in
      let told : Draft R = record changed { notices = deadline_set v ∷ d.notices } in
      chosen (Tells real d) (real.eq v d.extra.sorter_deadline) d
        (if r.has_client then told else changed) (λ same. same-Tells real d)
        (λ differs.
          chosen (Tells real d) r.has_client told changed (λ client quiet. (quiet, refl))
            (λ no_client quiet. (quiet, refl)))

  set_forwarding-Tells :
      (r : Render R) (v : Bool) (d : Draft R) → Tells real d (set_forwarding json real r v d)
  set_forwarding-Tells r v d =
      let changed = let e = d.extra in with_extra d (record e { expedited_forwarding_phb = v }) in
      let told : Draft R = record changed { notices = forwarding_expedited ∷ d.notices } in
      chosen (Tells real d) (bool_eq v d.extra.expedited_forwarding_phb) d
        (if v && r.has_client then told else changed) (λ same. same-Tells real d)
        (λ differs.
          chosen (Tells real d) (v && r.has_client) told changed (λ client quiet. (quiet, refl))
            (λ no_client quiet. (quiet, refl)))

  pub set_network-Tells :
      (r : Render R) (js : J) (d : Draft R) → UpdateTells real d (set_network json real r js d)
  unfolding set_network
  set_network-Tells r js d =
      bind-Tells real d
        (fetch (real_of json js Key.deadline d.extra.sorter_deadline) d
          (λ v. done (set_deadline json real r v d)))
        (λ d'.
          fetch (bool_of json js Key.expeditedforwarding d'.extra.expedited_forwarding_phb) d'
            (λ v. done (set_forwarding json real r v d')))
        (fetch-Tells real (real_of json js Key.deadline d.extra.sorter_deadline) d _
          (λ v. set_deadline-Tells r v d))
        (λ d'.
          fetch-Tells real
            (bool_of json js Key.expeditedforwarding d'.extra.expedited_forwarding_phb) d' _
            (λ v. set_forwarding-Tells r v d'))

  adopt_metronome-Tells :
      (r : Render R) (m : Metronome R) (d : Draft R)
      → Tells real d (adopt_metronome json real r m d)
  adopt_metronome-Tells r m d =
      let late = if real.eq d.extra.metronome.delay m.delay then d else asks_restart d in
      let changed = let e = late.extra in with_extra late (record e { metronome = m }) in
      let told : Draft R = record changed {
        notices = metronome_sent r.stage.thisdeviceid m ∷ d.notices;
      } in
      let on_time : Tells real d late =
        chosen (Tells real d) (real.eq d.extra.metronome.delay m.delay) d (asks_restart d)
          (λ same. same-Tells real d) (λ differs quiet. no_flag quiet) in
      chosen (Tells real d) (not (metronome_ne real m d.extra.metronome)) d
        (if r.session_active && r.has_tascar then told else changed) (λ same. same-Tells real d)
        (λ differs.
          chosen (Tells real d) (r.session_active && r.has_tascar) told changed (λ runs. on_time)
            (λ runs_not. on_time))

  pub set_metronome-Tells :
      (r : Render R) (js : J) (d : Draft R) → UpdateTells real d (set_metronome json real r js d)
  unfolding set_metronome metronome_of_json
  set_metronome-Tells r js d = fetch-Tells real (int_of json js Key.bpb 4) d _ (λ bpb.
      fetch-Tells real (real_of json js Key.bpm (real.of_nat 120)) d _ (λ bpm.
        fetch-Tells real (bool_of json js Key.active false) d _ (λ active.
          fetch-Tells real (real_of json js Key.delay (real.of_nat 40)) d _ (λ delay.
            fetch-Tells real (real_of json js Key.level (real.of_nat 65)) d _ (λ level.
              adopt_metronome-Tells r
                (record { bpb = bpb; bpm = bpm; bypass = not active; delay = delay; level = level })
                d)))))
