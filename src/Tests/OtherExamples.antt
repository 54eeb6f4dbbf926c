-- ===== src/Tests/OtherExamples.antt =====
-- The theorems on both servers, on rows, labels and the configuration at concrete inputs.
use speed_test.Base.{
  ℕ, arith, ◌^◌, ◌≤◌, ◌<◌, none, some, List, [], ◌∷◌, pos, ◌≡◌, refl, map, same, string_key,
  if◌then◌else◌,
}
use speed_test.Models.{Order}
use speed_test.Rows.{pet_values, pet_of_row, order_values, order_of_row}
use speed_test.Rows.RoundTrip.{pet_of_row-pet_values, order_of_row-order_values}
use speed_test.Sql.Meaning.{stored_order}
use speed_test.Actix.Routes.{route}
use speed_test.Actix.Routes.Reached.{Endpoint, handler, address, route-address}
use speed_test.DbConfig.{Env, actix_build_dsn, hyper_build_dsn, pool_max_connections}
use speed_test.DbConfig.Pool.{pool_max_connections-bounds}
use speed_test.DbConfig.Dsn.{IsAddress, build_dsn-IsAddress}
use speed_test.Hyper.Agreement.Runs.{Request, in_turn, actix, hyper, in_turn-hyper-actix}
use speed_test.Tests.Serial.{json, chrono}
use speed_test.Tests.Memory.{memory, fresh}
use speed_test.Tests.Inputs.{rex, an_order, ann}

abbrev requests : List (Request ℕ)
requests =
    Request.add_pet rex
    ∷ Request.get_inventory
    ∷ Request.place_order an_order
    ∷ Request.create_user ann
    ∷ Request.login_user 5 (some "ann") (some "secret")
    ∷ Request.delete_pet (pos 1) none
    ∷ Request.get_pet_by_id (pos 1)
    ∷ []

abbrev env : Env
env name =
    if same name "PGDATABASE"
    then some "pets"
    else if same name "DB_POOL_MAX"
    then some " 25 "
    else none

-- A date without a part below microseconds.
abbrev precise : Order ℕ
precise = record an_order { ship_date = some 5000 }

in_turn-hyper-actix_example : in_turn (hyper json chrono memory) requests fresh ≡ (
  map some (in_turn (actix json chrono memory) requests fresh).0,
  (in_turn (actix json chrono memory) requests fresh).1,
)
in_turn-hyper-actix_example = in_turn-hyper-actix json chrono memory requests fresh

route-address_example :
    let (method, path) = address (Endpoint.get_user_by_name "ann") in
    route method path ≡ some (handler (Endpoint.get_user_by_name "ann"))
route-address_example = route-address (Endpoint.get_user_by_name "ann") refl

pet_of_row-pet_values_example :
    pet_of_row json (pet_values json (pos 7) rex (json.urls.text rex.photo_urls))
    ≡ record rex { id = some (pos 7) }
pet_of_row-pet_values_example = pet_of_row-pet_values json (pos 7) rex

order_of_row-order_values_example :
    order_of_row chrono (stored_order memory.dialect (order_values chrono (pos 5) precise))
    ≡ record precise { id = some (pos 5) }
order_of_row-order_values_example =
    order_of_row-order_values chrono memory.dialect (pos 5) precise (λ t e. ground arith)

pool_max_connections-bounds_example :
    (1 ≤ pool_max_connections env) × (pool_max_connections env < 2 ^ 32)
pool_max_connections-bounds_example = pool_max_connections-bounds env

build_dsn-IsAddress_example :
    IsAddress env "rust-actix" (actix_build_dsn env)
    × IsAddress env "rust-server" (hyper_build_dsn env)
build_dsn-IsAddress_example = build_dsn-IsAddress env
