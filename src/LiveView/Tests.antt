-- ===== src/LiveView/Tests.antt =====
-- Concrete runs of src/crsdkpy/liveview.py, over the simulator.
use cr_sdkpy.Base.{◌+◌, refl, none, ◌≡◌, arith, some}
use cr_sdkpy.Session.Outcomes.{Outcome}
use cr_sdkpy.LiveView.{try_get_frame, measure, skipped_by}
use cr_sdkpy.LiveView.Fetch.{InTime, try_get_frame-ends}
use cr_sdkpy.Simulator.Laws.{waiting_laws}
use cr_sdkpy.LiveView.Rounds.{Reports, measure-Reports}
use cr_sdkpy.Simulator.Tests.{zeros, live_session}
use cr_sdkpy.Simulator.Instance.{simulated}
use cr_sdkpy.Contract.{Backend, Returns}
use cr_sdkpy.Session.{now}

abbrev camera : Backend
camera = simulated zeros 1

measure_example :
    Outcome (Reports camera 120 100 200 live_session) (measure camera 50 120 200 100 live_session)
measure_example = measure-Reports camera 120 100 50 200 live_session

try_get_frame_example :
    Returns
      (InTime camera (waiting_laws zeros 1) (now camera live_session + 100))
      (try_get_frame camera 101 100 live_session)
try_get_frame_example =
    try_get_frame-ends camera (waiting_laws zeros 1) 101 100 live_session (omega arith)

-- The camera numbers 10 frames, of which 7 were delivered.
skipped_frames : skipped_by (some 3) (some 12) 7 ≡ 3
unfolding skipped_by
skipped_frames = refl

skipped_unnumbered : skipped_by none none 7 ≡ 0
unfolding skipped_by
skipped_unnumbered = refl
