-- ===== src/Handlers/Projects/Tests.antt =====
-- Ann deletes her project "p".
use purp_tape.Base.{◌≡◌, refl, ◌≢◌, true, false, String, [], ◌∷◌, empty, insert}
use purp_tape.Http.{Request}
use purp_tape.Db.{Database, failed}
use purp_tape.Db.Projects
use purp_tape.Db.Projects.{deleted, get_project_by_id}
use purp_tape.Helpers.Requests.{get_user_id}
use purp_tape.Handlers.Projects.{delete_project}
use purp_tape.Handlers.Projects.Laws.{delete_project-done}

abbrev database : Database
database = record {
  available = true;
  no_rows_is_sql = false;
  has_avatar = λ user_id. true;
  projects =
      record { id = "p"; user_id = "ann"; is_deleted = false }
      ∷ record { id = "q"; user_id = "ann"; is_deleted = false }
      ∷ [];
  collaborators = [];
  project_shares = [];
  user_project_access = [];
  user_track_access = [];
}

abbrev by_ann : Request
by_ann = record {
  method = "DELETE";
  path = "/projects/p";
  remote_addr = "1.2.3.4:5000";
  header = λ name. "";
  path_value = λ name. "p";
  context = insert "user_id" "ann" empty;
}

delete_project-done_example :
    ((other : String)
      → get_project_by_id (delete_project database by_ann true).0 "p" other ≡ failed)
    × ((id other : String)
        → id ≢ "p"
        → get_project_by_id (delete_project database by_ann true).0 id other
          ≡ get_project_by_id database id other)
unfolding delete_project get_user_id Projects.delete_project deleted
delete_project-done_example =
    delete_project-done database by_ann true "ann" refl refl (λ e. refl, (λ e. refl, tt))
