-- ===== src/Api/Moderation/Examples.antt =====
-- Ann takes her public quartz down, and Bob looks for it.
use minerals.Base.{true, none, some, ◌≡◌, refl, contains, inl, inr}
use minerals.Uuid.{tally}
use minerals.Domain.{private}
use minerals.Authz.Examples.{casbin}
use minerals.Specimens.{
  Database, find, found, get_by_id, updated, update, update_found, number_taken, clashes,
  same_number,
}
use minerals.Api.Guard.{parse_uuid}
use minerals.Api.Guard.Specimens.{may_write}
use minerals.Api.Redact.{SpecimenView, to_specimen_view}
use minerals.Api.Specimens.{no_faults, mapped, loaded, written, get}
use minerals.Api.Specimens.Laws.{no_such_specimen}
use minerals.Api.Specimens.Examples.{ann, bob, quartz, database, parse}
use minerals.Api.Moderation.{report, taken_down, takedown}
use minerals.Api.Moderation.Takedown.{takedown-admitted, takedown-hidden}
use minerals.Api.Moderation.Report.{reported, report_lem}

view : SpecimenView
view = to_specimen_view (record quartz { visibility = private })

after : Database
after = (taken_down tally (some (casbin none).enforce) parse ann no_faults quartz database).1

takes_down :
    takedown tally (some (casbin none).enforce) parse ann no_faults "100" database
    ≡ (inr view, after)
unfolding view after contains loaded parse_uuid get_by_id found find mapped taken_down written
    update update_found number_taken clashes same_number updated
takes_down =
    takedown-admitted tally none (casbin none) tt parse ann no_faults "100" quartz database refl
      refl

takedown-hidden_example :
    (may_write tally ann quartz ≡ true)
    × (get tally (some (casbin none).enforce) parse bob none no_faults "100" after
        ≡ inl no_such_specimen)
unfolding find contains
takedown-hidden_example =
    takedown-hidden tally none (casbin none) tt parse ann no_faults no_faults "100" 100 database
      after view quartz bob none refl takes_down refl refl refl

report_lem_example :
    report tally (some (casbin none).enforce) parse bob no_faults 55 "spam" "100" database
    ≡ reported tally none (casbin none) tt parse bob 55 (some quartz)
unfolding contains find
report_lem_example =
    report_lem tally none (casbin none) tt parse bob no_faults 55 100 "spam" "100" database refl
      refl refl
