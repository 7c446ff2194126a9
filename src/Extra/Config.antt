-- ===== src/Extra/Config.antt =====
-- `set_extra_config` (src/ov_render_tascar.cc): the sections in turn. An exception leaves the settings that
-- were changed before it, and forgets that they ask for a restart.
pub mod Watched
pub mod Told
pub mod Restart
pub mod Clients
use libov.Prelude.{Bool, true, false, ◌&&◌, Option, none, some, List, [], ◌∷◌, if◌then◌else◌}
use libov.Real.{RealOps}
use libov.Message.{Bytes}
use libov.Session.{Render, Exit, returns, throws, require_session_restart}
use libov.Lobby.{JsonApi}
use libov.Lobby.Key
use libov.Extra.Draft.{Draft, Update, done, fails, ◌>>=◌, section}
use libov.Extra.Sections.{
  set_general, set_data_streams, set_tuner, set_spkcalib, set_network, set_headtrack, set_monitor,
}
use libov.Extra.Media.{set_render, set_metronome, set_jackrec, set_mcrec}
use libov.Extra.Proxy.{set_proxy}

module _ {R : Type 0} where
  unfoldable pub start_draft : Render R → Draft R
  start_draft r = record { extra = r.extra; notices = r.notices; restart_session = false }

  abbrev pub keep_draft : Render R → Draft R → Render R
  keep_draft r d = record r { extra = d.extra; notices = d.notices }

  -- The end of the function.
  abbrev pub finish : Render R → Update R → Exit R
  finish r (fails d) = throws (keep_draft r d)
  finish r (done d) = returns (
      if r.session_active && d.restart_session
      then require_session_restart (keep_draft r d)
      else keep_draft r d)

module _ {J R : Type 0} (json : JsonApi J R) (real : RealOps R) (localip : Bytes) where
  unfoldable pub set_sections : Render R → J → Draft R → Update R
  set_sections r xcfg d =
      set_general json real xcfg d
      >>= (λ d. section json real xcfg Key.scandatastreams d (set_data_streams json real))
      >>= (λ d. section json real xcfg Key.tuner d (set_tuner json real))
      >>= (λ d. section json real xcfg Key.spkcalib d (set_spkcalib json real))
      >>= (λ d. section json real xcfg Key.network d (set_network json real r))
      >>= (λ d. section json real xcfg Key.headtrack d (set_headtrack json real))
      >>= (λ d. section json real xcfg Key.monitor d (set_monitor json real))
      >>= (λ d. section json real xcfg Key.render d (set_render json real))
      >>= (λ d. section json real xcfg Key.metronome d (set_metronome json real r))
      >>= (λ d. section json real xcfg Key.jackrec d (set_jackrec json real))
      >>= (λ d. section json real xcfg Key.proxy d (set_proxy json localip))
      >>= (λ d. section json real xcfg Key.mcrec d (set_mcrec json real))

  -- The text is parsed back into the value that it was made from.
  unfoldable pub set_extra_config : J → Render R → Exit R
  set_extra_config xcfg r = finish r (set_sections r xcfg (start_draft r))
