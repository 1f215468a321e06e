-- ===== src/Admin/Serve/Effects.antt =====
-- What the handlers of the admin API that write do to the world, and what they answer.
use trino_goway.Base.{
  ◌≡◌, Bool, true, false, ◌&&◌, ◌||◌, Option, none, some, arith, leb, if◌then◌else◌, Text, codes,
  text_eq, is_empty, take, trim_space,
}
use trino_goway.Dict.{put}
use trino_goway.Monitor.Probe.{Status, pending, unhealthy}
use trino_goway.Store.Backends.{Backend, is_supported, upsert, delete, set_active}
use trino_goway.Store.Backends.Abstract.{Command, upserts, deletes, sets_active, execute}
use trino_goway.Admin.Routes.{
  Endpoint, activate, deactivate, add, update, remove, entity_upsert, webapp_save, webapp_update,
  webapp_delete,
}
use trino_goway.Admin.Wire.{
  ProxyBackend, Payload, empty, plain, words, one_backend, all_backends, backend_state, details,
  counts, result_ok, result_err, Request, World, Outside, Config, Response, decode_json,
  persistence_backend_from_proxy,
}
use trino_goway.Admin.Backends.{
  activate_backend, deactivate_backend, delete_backend, add_backend, update_backend, upsert_entity,
  upserted,
}
use trino_goway.Admin.Webapp.{webapp_save_backend, webapp_update_backend, webapp_delete_backend}
use trino_goway.Admin.Serve.{Services, handle}
use trino_goway.Admin.Serve.Guarded.{writes}

abbrev pub is_err : Payload → Bool
is_err (result_err msg) = true
is_err empty = false
is_err (plain t) = false
is_err (words ws) = false
is_err (one_backend b) = false
is_err (all_backends bs) = false
is_err (backend_state b) = false
is_err (details ds) = false
is_err (counts cs) = false
is_err (result_ok d) = false

-- the answer is an error status, or an envelope of a failure
abbrev pub is_refusal : Response → Bool
is_refusal res = leb 400 res.status || is_err res.payload

abbrev pub is_none : {A : Type 0} → Option A → Bool
is_none none = true
is_none (some a) = false

abbrev when : Bool → Option Command → Option Command
when b c = if b then c else none

abbrev named : Text → Option Command
named name = if is_empty name then none else some (deletes name)

abbrev deletion : Option ProxyBackend → Option Command
deletion none = none
deletion (some pb) = some (deletes pb.name)

abbrev trimmed : Option Text → Option Command
trimmed none = none
trimmed (some body) = named (trim_space (take 1024 body))

module _ (s : Services) (cfg : Config) (io : Outside) where
  abbrev upsertion : Option ProxyBackend → Option Command
  upsertion none = none
  upsertion (some pb) = some (upserts (persistence_backend_from_proxy io.now pb))

  abbrev posted : Request → Option Command
  posted r =
      when (io.backends_answer && is_supported cfg.driver)
        (upsertion (decode_json s.decode_backend r.body))

  -- The statement that a request to an endpoint asks for; `none` when its body does not say which, when
  -- the type of the entity is another one, or when the database does not carry it out.
  unfoldable pub command_of : Endpoint → Request → Option Command
  command_of activate r = when io.backends_answer (some (sets_active r.param true io.now))
  command_of deactivate r = when io.backends_answer (some (sets_active r.param false io.now))
  command_of remove r = when io.backends_answer (trimmed r.body)
  command_of webapp_delete r =
      when io.backends_answer (deletion (decode_json s.decode_backend r.body))
  command_of entity_upsert r =
      when (text_eq (r.query (codes "entityType")) (codes "GATEWAY_BACKEND")) (posted r)
  command_of _ r = posted r

  abbrev new_status : Backend → Status
  new_status b = if b.active then pending else unhealthy

  -- what a statement does to the world; an entity moreover gets a status, if there is an updater
  unfoldable pub effect : Endpoint → Option Command → World → World
  effect e none w = w
  effect entity_upsert (some (upserts b)) w =
      if cfg.has_status_mut
      then record w {
        backends = execute (upserts b) w.backends;
        statuses = put b.url (new_status b) w.statuses;
      }
      else record w { backends = execute (upserts b) w.backends }
  effect e (some c) w = record w { backends = execute c w.backends }

  -- the answer refuses exactly when there is no statement, and the world is changed by it
  abbrev pub IsEffected : Endpoint → Option Command → World → Response × World → Type 0
  IsEffected e c w out = (out.1 ≡ effect e c w) × (is_refusal out.0 ≡ is_none c)

  -- A request to an endpoint that writes changes the world by exactly the statement that it asks for, and
  -- is answered with a success exactly if there is one. A body that is not understood, a request to
  -- modify/delete whose text has no name, another type of entity, a driver that is not supported for an
  -- upsert and a database that does not answer all leave the world as it was, and give an error. The
  -- webapp's deletion takes any name, the empty one as well, and is then a statement like another.
  pub write_effect :
      (e : Endpoint) (r : Request) (w : World)
      → writes e ≡ true
      → IsEffected e (command_of e r) w (handle s cfg io e r w)
  unfolding handle effect command_of writes activate_backend deactivate_backend set_active
      delete_backend delete add_backend update_backend upsert_entity upserted upsert
      webapp_save_backend webapp_update_backend webapp_delete_backend
  write_effect activate r w h = (ground arith, ground arith)
  write_effect deactivate r w h = (ground arith, ground arith)
  write_effect remove r w h = (ground arith, ground arith)
  write_effect add r w h = (ground arith, ground arith)
  write_effect update r w h = (ground arith, ground arith)
  write_effect entity_upsert r w h = (ground arith, ground arith)
  write_effect webapp_save r w h = (ground arith, ground arith)
  write_effect webapp_update r w h = (ground arith, ground arith)
  write_effect webapp_delete r w h = (ground arith, ground arith)
  write_effect e r w h = (ground arith, ground arith)
