-- ===== src/Extra/Media.antt =====
-- The sections of the configuration in `set_extra_config` (src/ov_render_tascar.cc) on rendering, the
-- metronome, recording, and the multicast of audio.
use libov.Prelude.{true, false, not, ◌&&◌, ◌∷◌, if◌then◌else◌, bytes_eq, codes}
use libov.Real.{RealOps}
use libov.Settings.Differ.{bool_eq}
use libov.Session.{Render}
use libov.Lobby.{JsonApi, string_of, bool_of, real_of, int_of}
use libov.Lobby.Key
use libov.Extra.{Metronome, metronome_sent, metronome_ne}
use libov.Extra.Draft.{
  Draft, Update, done, ◌>>=◌, fetch, with_extra, asks_restart, update, assign, update_bool,
  update_text, update_real, update_int, update_ints,
}

module _ {J R : Type 0} (json : JsonApi J R) (real : RealOps R) where
  unfoldable pub set_render : J → Draft R → Update R
  set_render js d =
      assign bool_eq (λ e. e.render_soundscape) (λ v e. record e { render_soundscape = v })
        (bool_of json js Key.soundscape true) d
      >>= update_text json real js Key.zitasampleformat (λ e. e.zitasampleformat)
          (λ v e. record e { zitasampleformat = v })
      >>= update_bool json real js Key.useloudspeaker (λ e. e.useloudspeaker)
          (λ v e. record e { useloudspeaker = v })
      >>= update_int json real js Key.fdnforwardstages (λ e. e.fdnforwardstages)
          (λ v e. record e { fdnforwardstages = v })
      >>= update_int json real js Key.fdnorder (λ e. e.fdnorder) (λ v e. record e { fdnorder = v })
      >>= update_int json real js Key.echoc_nrep (λ e. e.echoc_nrep)
          (λ v e. record e { echoc_nrep = v })
      >>= update_real json real js Key.echoc_maxdist (λ e. e.echoc_maxdist)
          (λ v e. record e { echoc_maxdist = v })
      >>= update_real json real js Key.echoc_level (λ e. e.echoc_level)
          (λ v e. record e { echoc_level = v })
      >>= update_int json real js Key.echoc_filterlen (λ e. e.echoc_filterlen)
          (λ v e. record e { echoc_filterlen = v })
      >>= update_bool json real js Key.emptysessionismonitor (λ e. e.emptysessionismonitor)
          (λ v e. record e { emptysessionismonitor = v })

  -- `metronome_t(js)`.
  unfoldable pub metronome_of_json : J → Draft R → (Metronome R → Update R) → Update R
  metronome_of_json js d f = fetch (int_of json js Key.bpb 4) d (λ bpb.
      fetch (real_of json js Key.bpm (real.of_nat 120)) d (λ bpm.
        fetch (bool_of json js Key.active false) d (λ active.
          fetch (real_of json js Key.delay (real.of_nat 40)) d (λ delay.
            fetch (real_of json js Key.level (real.of_nat 65)) d (λ level. f (record {
              bpb = bpb;
              bpm = bpm;
              bypass = not active;
              delay = delay;
              level = level;
            }))))))

  -- The running session is told at once, and has to start again for another delay.
  abbrev pub adopt_metronome : Render R → Metronome R → Draft R → Draft R
  adopt_metronome r m d =
      let late = if real.eq d.extra.metronome.delay m.delay then d else asks_restart d in
      let changed = let e = late.extra in with_extra late (record e { metronome = m }) in
      if not (metronome_ne real m d.extra.metronome)
      then d
      else if r.session_active && r.has_tascar
      then record changed { notices = metronome_sent r.stage.thisdeviceid m ∷ d.notices }
      else changed

  unfoldable pub set_metronome : Render R → J → Draft R → Update R
  set_metronome r js d = metronome_of_json js d (λ m. done (adopt_metronome r m d))

  unfoldable pub set_jackrec : J → Draft R → Update R
  set_jackrec js d =
      update bytes_eq (λ e. e.jackrec_sampleformat) (λ v e. record e { jackrec_sampleformat = v })
        (string_of json js Key.sampleformat (codes "PCM_16")) d
      >>= update bytes_eq (λ e. e.jackrec_fileformat) (λ v e. record e { jackrec_fileformat = v })
          (string_of json js Key.fileformat (codes "WAV"))

  unfoldable pub set_mcrec : J → Draft R → Update R
  set_mcrec js d =
      update_bool json real js Key.use_mcrec (λ e. e.mczita) (λ v e. record e { mczita = v }) d
      >>= update_bool json real js Key.usesender (λ e. e.mczitasend)
          (λ v e. record e { mczitasend = v })
      >>= update_int json real js Key.sendchannels (λ e. e.mczitasendch)
          (λ v e. record e { mczitasendch = v })
      >>= update_text json real js Key.addr (λ e. e.mczitaaddr) (λ v e. record e { mczitaaddr = v })
      >>= update_int json real js Key.port (λ e. e.mczitaport) (λ v e. record e { mczitaport = v })
      >>= update_text json real js Key.device (λ e. e.mczitadevice)
          (λ v e. record e { mczitadevice = v })
      >>= update_int json real js Key.buffer (λ e. e.mczitabuffer)
          (λ v e. record e { mczitabuffer = v })
      >>= update_ints json real js Key.channels (λ e. e.mczitachannels)
          (λ v e. record e { mczitachannels = v })
      >>= update_bool json real js Key.autoconnectrec (λ e. e.mczita_autoconnect_rec)
          (λ v e. record e { mczita_autoconnect_rec = v })
