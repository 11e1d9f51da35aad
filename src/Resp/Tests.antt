-- ===== src/Resp/Tests.antt =====
-- Runs of the RESP parser.
use redis_c.Prelude.{◌≡◌, ◌≢◌, refl, List, [], ◌∷◌, ◌++◌, Bytes, drop, arith}
use redis_c.Prelude.Decimal.{stoi}
use redis_c.Prelude.Text.{text, line}
use redis_c.Resp.Encode.{pipeline, request, AllRequests}
use redis_c.Resp.RoundTrip.{parse-pipeline}
use redis_c.Resp.Progress.{parse_terminates}
use redis_c.Resp.Split.{split_request_is_lost}
use redis_c.Resp.Parser.{parsed, out_of_fuel, thrown}
use redis_c.Resp.Context.{fresh, parse}

abbrev two : Bytes
two = line "*2" ++ line "$3" ++ line "GET" ++ line "$1" ++ line "k"

abbrev hello : List (List Bytes)
hello = (text "GET" ∷ text "k" ∷ []) ∷ (text "DEL" ∷ [] ∷ []) ∷ []

hello-AllRequests : AllRequests hello
hello-AllRequests = omega arith

parse-pipeline_example : parse fresh (pipeline hello []) ≡ (parsed hello, fresh)
parse-pipeline_example = parse-pipeline hello hello-AllRequests

parse_terminates_example : (parse fresh two).0 ≢ out_of_fuel
parse_terminates_example = parse_terminates fresh two

split_request_is_lost_example :
    (parse fresh (b'*' ∷ []) ≡ (parsed [], fresh))
    × ((parse (parse fresh (b'*' ∷ [])).1 (drop 1 (request (text "PING" ∷ []) []))).0 ≡ parsed [])
split_request_is_lost_example = split_request_is_lost (text "PING" ∷ [])

whole : parse fresh two ≡ (parsed ((text "GET" ∷ text "k" ∷ []) ∷ []), fresh)
unfolding parse stoi
whole = refl

-- An array that is not all bulk strings is dropped.
nested : parse fresh (line "*2" ++ line "*0" ++ line "$1" ++ line "k") ≡ (parsed [], fresh)
unfolding parse stoi
nested = refl

-- A length that is no number raises `std::invalid_argument` out of `parse`.
bad_length : (parse fresh (line "$x")).0 ≡ thrown
unfolding parse stoi
bad_length = refl
