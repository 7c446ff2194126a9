-- ===== src/Lobby/Key.antt =====
-- The names of members in the configuration, each a string spelled like its constructor, but `use_mcrec`,
-- which is "use".
pub data Name : Type 0 where
  id deviceid label receivedownmix senddownmix nozita hiresping channels name sourceport gain
        position :
      Name
  x y z directivity plugins orientation mute jitter receive send sendlocal : Name
  driver device srate periodsize numperiods priority restart : Name
  audiocfg rendersettings room roomdev host port pin size reverb stagedevid extracfg : Name
  absorption damping roomgain devgain renderreverb renderism distancelaw delaycomp decorr : Name
  outputport1 outputport2 rawmode rectype secrec egogain outputgain peer2peer usetcptunnel
        encryption :
      Name
  lmetertc lmeterfw ambientsound ambientlevel xport xrecport headtracking headtrackingserial : Name
  headtrackingrot headtrackingrotsrc headtrackingport : Name
  reclevelanalyser start_webmixer tscinclude mhaconfig render usebcf2000 scandatastreams
        getoscvars :
      Name
  tuner tuner_tuning tuner_f0 tuner_active : Name
  spkcalib spkcalib_use spkcalib_firlen spkcalib_vfreq spkcalib_vgainl spkcalib_vgainr : Name
  network deadline expeditedforwarding headtrack tauref eogpath autorefzonly : Name
  monitor delay onlyreverb active soundscape zitasampleformat useloudspeaker : Name
  fdnforwardstages fdnorder echoc_nrep echoc_maxdist echoc_level echoc_filterlen
        emptysessionismonitor :
      Name
  metronome bpb bpm level jackrec sampleformat fileformat : Name
  proxy isproxy useproxy proxyip clients ip : Name
  mcrec use_mcrec usesender sendchannels addr buffer autoconnectrec : Name
  standalonemixer owner frontendconfig firmwareupdate firmwareupdategit usedevversion : Name
  installopenmha usehifiberry wifisettings ssid passwd : Name
