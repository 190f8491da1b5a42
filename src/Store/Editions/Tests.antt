-- ===== src/Store/Editions/Tests.antt =====
-- The editions that calls publish, at the small database of Store/Tests.
use sombreado_service.Base.{◌≡◌}
use sombreado_service.Store.Schema.{Db}
use sombreado_service.Store.Lifecycle.{discard_staging, publish}
use sombreado_service.Store.Reach.{Reach, here, next, publishes, discards}
use sombreado_service.Store.Editions.{editions, issue_all, publications}
use sombreado_service.Store.Editions.Refines.{Reach-editions}
use sombreado_service.Store.Tests.{world, world-IsValid}

abbrev discarded : Db
discarded = (discard_staging 3 world).1

abbrev calls : Reach world (publish 2 discarded).1
calls = next (next here (discards 3 world)) (publishes 2 discarded)

Reach-editions_example :
    editions (publish 2 discarded).1 ≡ issue_all (publications calls) (editions world)
Reach-editions_example = Reach-editions calls world-IsValid
