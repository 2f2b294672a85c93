-- ===== src/Episodes/Life/Teed.antt =====
-- The counters of an episode whose file was cached while it was streamed (episodes/serve.go).
use Prim.Native.String.{String}
use solstein.Base.{ℕ, ◌≡◌, Bool, true, false, not, ◌&&◌, if_keep, arith}
use solstein.Models.{Feed, Episode, is_failed, is_ready}
use solstein.Episodes.Outcome.{Pipeline}
use solstein.Episodes.Serve.{is_teeable, record_tee, recover, with_recipe}
use solstein.Episodes.Life.Sound.{IsSound}

-- The counters are those of the state, so that they stay in step in another published one.
recover-IsSound :
    (processed : Bool) (e : Episode)
    → e.withheld ≡ false
    → IsSound e
    → IsSound (recover processed e)
recover-IsSound processed e visible is =
    if_keep IsSound (is_failed e.state && not processed) visible is

with_recipe-IsSound :
    (pipeline : Pipeline) (feed : Feed) (e : Episode)
    → IsSound e
    → IsSound (with_recipe pipeline feed e)
with_recipe-IsSound pipeline feed e is = if_keep IsSound (is_ready e.state) is is

visible_of : (a b : Bool) → (not a && b) ≡ true → a ≡ false
visible_of a b h = ground arith

pub tee-IsSound :
    (pipeline : Pipeline) (feed : Feed) (processed : Bool) (file : String) (size now : ℕ)
    (e : Episode)
    → is_teeable processed e ≡ true
    → IsSound e
    → IsSound (record_tee pipeline feed processed file size now e)
unfolding record_tee
tee-IsSound pipeline feed processed file size now e teeable is =
    with_recipe-IsSound pipeline feed _
      (recover-IsSound processed _ (visible_of e.withheld _ teeable) is)
