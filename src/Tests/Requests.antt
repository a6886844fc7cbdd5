-- ===== src/Tests/Requests.antt =====
-- Calls of the service in sequence, from a world with one avatar.
use goprofile.Prelude.{sym, arith, text, List, [], ◌∷◌}
use goprofile.Repository.Queries.{avatar_repository}
use goprofile.Repository.Contract.{Obeys}
use goprofile.Repository.Contract.Laws.{avatar_repository-Obeys}
use goprofile.Repository.Invariant.{IsConsistent}
use goprofile.Repository.History.{Follows}
use goprofile.App.Requests.{
  Request, served_all, served_all-IsConsistent, served_all-Follows, uploading, deleting,
  deleting_latest, flushing, recovering,
}
use goprofile.Repository.Announced.{IsAnnounced}
use mathlib.Core.List.{append-nil}
use goprofile.Services.Upload.{upload_event}
use goprofile.Services.Outbox.{delete_event}
use goprofile.App.Delivered.{IsDelivered}
use goprofile.App.Delivered.Served.{Faithful, served_all-IsDelivered}
use goprofile.App.Announced.{served_all-IsAnnounced}
use goprofile.Tests.{test_setup, test_library, photo}
use goprofile.Tests.Service.{start, stocked}

-- The second call fails, since the avatar is not of bob.
abbrev busy : List Request
busy =
    uploading (text "ann") (text "me.jpg") photo
    ∷ deleting 3 (text "bob")
    ∷ deleting 3 (text "ann")
    ∷ flushing
    ∷ deleting_latest (text "ann")
    ∷ recovering
    ∷ flushing
    ∷ []

stocked-IsConsistent : IsConsistent stocked.db
stocked-IsConsistent = record {
  unique_avatars = (tt, tt);
  unique_outbox = tt;
  unique_events = tt;
  given_out = tt;
}

served_all-IsConsistent_example : IsConsistent (served_all test_setup busy stocked).db
served_all-IsConsistent_example =
    served_all-IsConsistent test_setup busy stocked stocked-IsConsistent

served_all-Follows_example : Follows stocked.db (served_all test_setup busy stocked).db
served_all-Follows_example = served_all-Follows test_setup busy stocked

avatar_repository-Obeys_example : Obeys test_setup.json (avatar_repository test_setup.json)
avatar_repository-Obeys_example = avatar_repository-Obeys test_setup.json

served_all-IsAnnounced_example :
    IsAnnounced test_library.uuid_string (served_all test_setup busy start).db
served_all-IsAnnounced_example = served_all-IsAnnounced test_setup busy start tt

start-IsConsistent : IsConsistent start.db
start-IsConsistent = record {
  unique_avatars = tt;
  unique_outbox = tt;
  unique_events = tt;
  given_out = tt;
}

pub test_setup-Faithful : Faithful test_setup
unfolding upload_event delete_event
test_setup-Faithful = record {
  own = [];
  appends = λ headers. sym (append-nil headers);
  upload_ids = λ a body e made read. ground arith;
  delete_ids = λ a body e made read. ground arith;
}

served_all-IsDelivered_example : IsDelivered test_library (served_all test_setup busy start)
served_all-IsDelivered_example =
    served_all-IsDelivered test_setup test_setup-Faithful busy start (start-IsConsistent, tt)
