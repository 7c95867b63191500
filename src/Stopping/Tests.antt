-- ===== src/Stopping/Tests.antt =====
-- A fence, then a violated order: two alarms; a third discovery stays quiet.
use relyt_ingest.Common.{◌≤◌, ◌⊎◌, ◌≡◌, refl, [], ◌∷◌, List, All, length}
use relyt_ingest.Errors.{writer_fenced, staging_order_violation, ok, Error, err}
use relyt_ingest.Stopping.{
  happen, Happening, lease_lost, order_broken, noticed, happen_all, fresh_shared, Shared,
  check_health, happen, fatal_priority,
}
use relyt_ingest.Stopping.Upgrades.{alarms_upgrade, Descends, IsStopped}

abbrev story : List Happening
story = lease_lost "lost" ∷ noticed ∷ order_broken "gap" ∷ noticed ∷ lease_lost "again" ∷ []

story_run :
    (happen_all 5 fresh_shared story).alarms
    ≡ writer_fenced "lost" ∷ staging_order_violation "gap" ∷ []
unfolding happen_all
story_run = refl

abbrev after_story : Shared
after_story = happen_all 5 fresh_shared story

alarms_upgrade_example :
    Descends 255 after_story.alarms after_story.alarm_raised
    × All IsStopped after_story.alarms
    × (length after_story.alarms ≤ 4)
    × ((check_health 5 after_story ≡ ok tt)
        ⊎ ((e : Error) × (check_health 5 after_story ≡ err e)
            × ((happen 5 after_story noticed).alarm_raised ≤ fatal_priority e)))
alarms_upgrade_example = alarms_upgrade 5 story
