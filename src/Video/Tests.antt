-- ===== src/Video/Tests.antt =====
-- A recording on the simulator, through src/crsdkpy/video.py.
use cr_sdkpy.Base.{◌+◌, arith, refl}
use cr_sdkpy.Enums.{RecordingState}
use cr_sdkpy.Contract.{Backend, Returns}
use cr_sdkpy.Session.{now}
use cr_sdkpy.Simulator.Laws.{waiting_laws}
use cr_sdkpy.Simulator.Instance.{simulated, on_session-Steady}
use cr_sdkpy.Simulator.Timeline.Budget.{settle-load}
use cr_sdkpy.Simulator.Media.{recording_state}
use cr_sdkpy.Simulator.Tests.{zeros, live_session}
use cr_sdkpy.Video.{wait_for}
use cr_sdkpy.Video.Waits.{ReadsRecording, Waited, wait_for-ends}

abbrev camera : Backend
camera = simulated zeros 1

camera-ReadsRecording : ReadsRecording camera (waiting_laws zeros 1)
unfolding recording_state waiting_laws
camera-ReadsRecording w = on_session-Steady 1 _ w (λ now s. (tt, settle-load now s))

wait_for_example :
    Returns
      (Waited camera
        (waiting_laws zeros 1)
        camera-ReadsRecording
        RecordingState.idle
        (now camera live_session + 100))
      (wait_for camera 500 RecordingState.idle 100 live_session)
unfolding waiting_laws
wait_for_example =
    wait_for-ends camera (waiting_laws zeros 1) camera-ReadsRecording 500 RecordingState.idle 100
      live_session refl (omega arith)
