-- ===== src/Tests/HyperExamples.antt =====
-- The theorems on the Hyper server and client at concrete inputs.
use speed_test.Base.{
  ℕ, String, ◌++◌, ◌≡◌, refl, none, some, true, List, [], ◌∷◌, pos, negsuc, ok, show_int, arith,
}
use speed_test.Hyper.Http.{Method, Request, Response}
use speed_test.Hyper.Interface.{Api}
use speed_test.Hyper.Paths.Names.{route_name, parse_operation_id-dispatch}
use speed_test.Hyper.Paths.{parse_operation_id, Operation, handle, dispatch, is_some}
use speed_test.Hyper.Paths.Ids.{dispatch-show_int}
use speed_test.Hyper.Responses.{AddPetResponse, GetPetByIdResponse, DeleteUserResponse}
use speed_test.Hyper.Api.Pet.{get_pet_by_id}
use speed_test.Hyper.Server.Access.{Scopes, Authorization, plain, has_scope}
use speed_test.Hyper.Server.Access
use speed_test.Hyper.Server.Denied.{call_refused}
use speed_test.Hyper.Server.Statuses.{IsAnswer}
use speed_test.Hyper.Server.Service.{call}
use speed_test.Hyper.Server.User.{warn}
use speed_test.Hyper.Server.Implementation.{implementation, call-IsAnswer}
use speed_test.Hyper.Client.Pet
use speed_test.Hyper.Client.Reply.{delete_user}
use speed_test.Hyper.Client.Unexpected.{IsLost, read_unexpected}
use speed_test.Hyper.Client.Connected.{connection}
use speed_test.Hyper.Client.EndToEnd.{get_pet_by_id-connection}
use speed_test.Hyper.Client.Mislabelled.{add_pet-connection}
use speed_test.Models.{User}
use speed_test.Hyper.Form.User.{user_fields, user_to_string, user_from_str}
use speed_test.Hyper.Form.Error.{error_to_string, error_from_str}
use speed_test.Hyper.Form.RoundTrip.{or_missing}
use speed_test.Hyper.Form.RoundTrip.User.{user_from_str-user_to_string}
use speed_test.Hyper.Form.RoundTrip.Error.{error_from_str-error_to_string}
use speed_test.Tests.Serial.{json, chrono}
use speed_test.Sql.Table.{find}
use speed_test.Tests.Bytes.{as_bytes}
use speed_test.Tests.Memory.{Db, memory, fresh, execute}
use speed_test.Tests.Inputs.{rex}
use speed_test.Tests.Wire.{wire, urls}

abbrev api : Api ℕ Db
api = implementation json chrono memory 5

abbrev nobody : Access.Context
nobody = record { span_id = "1"; authorization = none }

abbrev somebody : Access.Context
somebody = record {
  span_id = "1";
  authorization = some (record { subject = "cosmo"; scopes = Scopes.all; issuer = none });
}

abbrev deletion : Request
deletion = record {
  method = Method.delete;
  uri = record { path = "/api/v3/pet/" ++ show_int (pos 1); query = none };
  headers = [];
  body = ok [];
}

abbrev empty_response : Response
empty_response = record { status = 200; headers = []; body = ok [] }

warn-wire : (names : List String) (r : Response) → is_some (warn wire names r) ≡ true
unfolding warn
warn-wire [] r = refl
warn-wire (name ∷ names) r = refl

abbrev ann : User
ann = record {
  id = some (pos 3);
  username = some "ann";
  first_name = none;
  last_name = some "Lee";
  email = none;
  password = some "secret";
  phone = none;
  user_status = some (negsuc 0);
}

call_refused_example :
    call wire api nobody deletion fresh ≡ (some (plain wire 403 "Unauthenticated"), fresh)
call_refused_example =
    call_refused wire api Operation.delete_pet nobody deletion fresh
      (dispatch-show_int (pos 1) (omega arith)).1 refl

call-IsAnswer_example : IsAnswer (call wire api somebody deletion fresh).0
call-IsAnswer_example =
    call-IsAnswer json chrono memory 5 wire somebody deletion fresh refl
      (λ bytes v e. warn-wire _ _)

get_pet_by_id-connection_example :
    Pet.get_pet_by_id wire "http://localhost"
      (connection wire api somebody)
      (record { span_id = "2"; auth_data = none })
      (pos 7)
      fresh
    ≡ (some (ok GetPetByIdResponse.pet_not_found), fresh)
unfolding get_pet_by_id execute find
get_pet_by_id-connection_example =
    get_pet_by_id-connection wire "http://localhost" (pos 7) (omega arith) (urls _) api somebody
      refl "1" refl "2" none fresh fresh GetPetByIdResponse.pet_not_found refl tt refl refl

add_pet-connection_example :
    Pet.add_pet wire "http://localhost"
      (connection wire api somebody)
      (record { span_id = "2"; auth_data = none })
      rex
      fresh
    ≡ (some (ok AddPetResponse.invalid_input), fresh)
unfolding as_bytes
add_pet-connection_example =
    add_pet-connection wire api rex somebody "http://localhost" "2" none "<xml/>" _ fresh refl refl
      (λ bytes. ("expected value at line 1 column 1", refl)) refl (urls _) refl tt refl

read_unexpected_example :
    IsLost wire empty_response
      (delete_user (DeleteUserResponse.unexpected_error (record { code = "1"; message = "" })))
read_unexpected_example =
    read_unexpected wire empty_response
      (delete_user (DeleteUserResponse.unexpected_error (record { code = "1"; message = "" }))) refl

parse_operation_id-dispatch_example :
    parse_operation_id Method.get "/api/v3/user/login"
    ≡ route_name (dispatch Method.get "/api/v3/user/login")
parse_operation_id-dispatch_example = parse_operation_id-dispatch Method.get "/api/v3/user/login"

dispatch-show_int_example :
    (dispatch Method.get ("/api/v3/pet/" ++ show_int (pos 7)) ≡ handle Operation.get_pet_by_id)
    × (dispatch Method.delete ("/api/v3/pet/" ++ show_int (pos 7)) ≡ handle Operation.delete_pet)
    × (dispatch Method.post ("/api/v3/pet/" ++ show_int (pos 7))
        ≡ handle Operation.update_pet_with_form)
    × (dispatch Method.post ("/api/v3/pet/" ++ (show_int (pos 7) ++ "/uploadImage"))
        ≡ handle Operation.upload_file)
    × (dispatch Method.get ("/api/v3/store/order/" ++ show_int (pos 7))
        ≡ handle Operation.get_order_by_id)
    × (dispatch Method.delete ("/api/v3/store/order/" ++ show_int (pos 7))
        ≡ handle Operation.delete_order)
dispatch-show_int_example = dispatch-show_int (pos 7) (omega arith)

user_from_str-user_to_string_example :
    user_from_str (user_to_string ann) ≡ or_missing "User" (user_fields ann) ann
user_from_str-user_to_string_example =
    user_from_str-user_to_string ann
      (omega arith, ground arith, tt, ground arith, tt, ground arith, tt, omega arith)

error_from_str-error_to_string_example :
    error_from_str (error_to_string (record { code = "500"; message = "no connection" }))
    ≡ ok (record { code = "500"; message = "no connection" })
error_from_str-error_to_string_example =
    error_from_str-error_to_string (record { code = "500"; message = "no connection" })
      (ground arith) (ground arith)
