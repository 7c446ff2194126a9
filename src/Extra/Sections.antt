-- ===== src/Extra/Sections.antt =====
-- The sections of the configuration in `set_extra_config` (src/ov_render_tascar.cc), in its order, up to
-- the monitor.
use libov.Prelude.{Bool, true, false, ◌&&◌, [], ◌∷◌, if◌then◌else◌, bytes_eq}
use libov.Real.{RealOps}
use libov.Message.{Bytes}
use libov.Settings.Differ.{bool_eq}
use libov.Session.{Render}
use libov.Lobby.{JsonApi, string_of, bool_of, real_of}
use libov.Lobby.Key
use libov.Lobby.Key.{Name}
use libov.Extra.{Extra, deadline_set, forwarding_expedited}
use libov.Extra.Draft.{
  Draft, Update, done, ◌>>=◌, fetch, with_extra, update, assign, take_over, update_bool,
  update_text, update_real, update_int,
}

module _ {J R : Type 0} (json : JsonApi J R) (real : RealOps R) where
  unfoldable pub set_general : J → Draft R → Update R
  set_general xcfg d =
      fetch (json.member xcfg Key.reclevelanalyser) d (λ js.
        update_bool json real js Key.reclevelanalyser (λ e. e.reclevelanalyser)
          (λ v e. record e { reclevelanalyser = v }) d)
      >>= (λ d.
          assign bool_eq (λ e. e.start_webmixer) (λ v e. record e { start_webmixer = v })
            (bool_of json xcfg Key.start_webmixer d.extra.start_webmixer) d)
      >>= (λ d.
          assign bytes_eq (λ e. e.tscinclude) (λ v e. record e { tscinclude = v })
            (string_of json xcfg Key.tscinclude d.extra.tscinclude) d)
      >>= (λ d.
          assign bytes_eq (λ e. e.mhaconfig) (λ v e. record e { mhaconfig = v })
            (string_of json xcfg Key.mhaconfig d.extra.mhaconfig) d)
      >>= (λ d. fetch (json.member xcfg Key.render) d (λ js.
          assign bool_eq (λ e. e.usebcf2000) (λ v e. record e { usebcf2000 = v })
            (bool_of json js Key.usebcf2000 false) d))

  unfoldable pub set_data_streams : J → Draft R → Update R
  set_data_streams js =
      update_bool json real js Key.getoscvars (λ e. e.getoscvars)
        (λ v e. record e { getoscvars = v })

  unfoldable pub set_tuner : J → Draft R → Update R
  set_tuner js d =
      update_text json real js Key.tuner_tuning (λ e. e.tuner_tuning)
        (λ v e. record e { tuner_tuning = v }) d
      >>= update_real json real js Key.tuner_f0 (λ e. e.tuner_f0) (λ v e. record e { tuner_f0 = v })
      >>= update_bool json real js Key.tuner_active (λ e. e.tuner_active)
          (λ v e. record e { tuner_active = v })

  -- A member that is used only where it is a string.
  abbrev pub update_if_string :
      J → Name → (Extra R → Bytes) → (Bytes → Extra R → Extra R) → Draft R → Update R
  update_if_string js k get set d =
      fetch (json.member js k) d
        (λ v. if json.is_string v then update_text json real js k get set d else done d)

  unfoldable pub set_spkcalib : J → Draft R → Update R
  set_spkcalib js d =
      update_bool json real js Key.spkcalib_use (λ e. e.spkcalib_use)
        (λ v e. record e { spkcalib_use = v }) d
      >>= update_int json real js Key.spkcalib_firlen (λ e. e.spkcalib_firlen)
          (λ v e. record e { spkcalib_firlen = v })
      >>= update_if_string js Key.spkcalib_vfreq (λ e. e.spkcalib_vfreq)
          (λ v e. record e { spkcalib_vfreq = v })
      >>= update_if_string js Key.spkcalib_vgainl (λ e. e.spkcalib_vgainl)
          (λ v e. record e { spkcalib_vgainl = v })
      >>= update_if_string js Key.spkcalib_vgainr (λ e. e.spkcalib_vgainr)
          (λ v e. record e { spkcalib_vgainr = v })

  -- The client is told at once. It is told of expedited forwarding only when that is turned on.
  module _ (r : Render R) where
    abbrev pub set_deadline : R → Draft R → Draft R
    set_deadline v d =
        let changed = let e = d.extra in with_extra d (record e { sorter_deadline = v }) in
        if real.eq v d.extra.sorter_deadline
        then d
        else if r.has_client
        then record changed { notices = deadline_set v ∷ d.notices }
        else changed

    abbrev pub set_forwarding : Bool → Draft R → Draft R
    set_forwarding v d =
        let changed = let e = d.extra in with_extra d (record e { expedited_forwarding_phb = v }) in
        if bool_eq v d.extra.expedited_forwarding_phb
        then d
        else if v && r.has_client
        then record changed { notices = forwarding_expedited ∷ d.notices }
        else changed

    unfoldable pub set_network : J → Draft R → Update R
    set_network js d =
        fetch (real_of json js Key.deadline d.extra.sorter_deadline) d
          (λ v. done (set_deadline v d))
        >>= (λ d.
            fetch (bool_of json js Key.expeditedforwarding d.extra.expedited_forwarding_phb) d
              (λ v. done (set_forwarding v d)))

  unfoldable pub set_headtrack : J → Draft R → Update R
  set_headtrack js d =
      take_over (λ v e. record e { headtrack_tauref = v })
        (real_of json js Key.tauref (real.div (real.of_nat 33315) (real.of_nat 1000))) d
      >>= take_over (λ v e. record e { headtrack_eogpath = v }) (string_of json js Key.eogpath [])
      >>= take_over (λ v e. record e { headtrack_autorefzonly = v })
          (bool_of json js Key.autorefzonly true)

  unfoldable pub set_monitor : J → Draft R → Update R
  set_monitor js d =
      take_over (λ v e. record e { selfmonitor_delay = v })
        (real_of json js Key.delay (real.of_nat 0)) d
      >>= update bool_eq (λ e. e.selfmonitor_onlyreverb)
          (λ v e. record e { selfmonitor_onlyreverb = v }) (bool_of json js Key.onlyreverb false)
      >>= update bool_eq (λ e. e.selfmonitor_active) (λ v e. record e { selfmonitor_active = v })
          (bool_of json js Key.active true)
