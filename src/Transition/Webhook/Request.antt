-- ===== src/Transition/Webhook/Request.antt =====
-- pkg/controllers/podtransitionrule/processor/rules/webhook.go and types.go: the first request of a
-- webhook (query, buildRequest, parseParameter, doHttp).
use kuperator.Common.{
  Option, none, some, List, [], ◌∷◌, if◌then◌else◌, Text, codes, text_eq, Dict, insert, Error,
  invalid_value, Result, ok, err, Outcome, returns, panics,
}
use kuperator.Pod.{Pod}
use kuperator.Transition.Rules.{Parameter}
use kuperator.Transition.Webhook.{Response}

-- What comes back: no response but an error of the transport, one that cannot be parsed, or one that
-- can.
pub data Answer : Type 0 where
  no_response unreadable : Error → Answer
  responds : Response → Answer

-- A pod of a request (ResourceParameter of kusionstack.io/kube-api).
pub record Resource : Type 0 where
  pub resource_name : Text
  pub values : Dict Text

-- What lies outside: the values of fields (ExtractValueFromPod), and the webhook.
pub record Outside : Type 0 where
  pub extract : Pod → Text → Text → Result Text
  pub send : List Resource → Answer

-- The deferred function of parseParameter.
abbrev null_as_empty : Text → Text
null_as_empty value = if text_eq value (codes "null") then [] else value

abbrev extracted : Result Text → Result Text
extracted (err e) = err e
extracted (ok value) = ok (null_as_empty value)

abbrev by_field : Outside → Text → Pod → Option Text → Result Text
by_field O key pod none = err invalid_value
by_field O key pod (some path) = extracted (O.extract pod key path)

abbrev value_or_field : Outside → Text → Pod → Option Text → Text → Result Text
value_or_field O key pod path [] = by_field O key pod path
value_or_field O key pod path (c ∷ value) = ok (null_as_empty (c ∷ value))

unfoldable pub parse_parameter : Outside → Parameter → Pod → Result Text
parse_parameter O p pod = value_or_field O p.parameter_key pod p.field_path p.value

abbrev pub with_value : Text → Result Text → Dict Text → Result (Dict Text)
with_value key (err e) values = err e
with_value key (ok v) values = ok (insert key v values)

unfoldable pub parse_parameters :
    Outside → List Parameter → Pod → Result (Dict Text) → Result (Dict Text)
unfolding parse_parameter
parse_parameters O ps pod (err e) = err e
parse_parameters O [] pod (ok values) = ok values
parse_parameters O (p ∷ ps) pod (ok values) =
    parse_parameters O ps pod (with_value p.parameter_key (parse_parameter O p pod) values)

abbrev with_resource : Text → Result (Dict Text) → Result (List Resource) → Result (List Resource)
with_resource k (err e) rest = err e
with_resource k (ok v) (err e) = err e
with_resource k (ok v) (ok rest) = ok ((record { resource_name = k; values = v }) ∷ rest)

unfoldable pub build_request : Outside → List Parameter → List (Text × Pod) → Result (List Resource)
build_request O ps [] = ok []
build_request O ps ((k, pod) ∷ pods) =
    with_resource k (parse_parameters O ps pod (ok [])) (build_request O ps pods)

-- doHttp: the body of a response is closed at the end, also if there is none, and a nil pointer is
-- read then.
abbrev pub do_http : Answer → Outcome (Result Response)
do_http (no_response e) = panics
do_http (unreadable e) = returns (err e)
do_http (responds r) = returns (ok r)

-- query: a request that cannot be built is nil, and its trace is read all the same.
abbrev queried : Outside → Result (List Resource) → Outcome (Result Response)
queried O (err e) = panics
queried O (ok resources) = do_http (O.send resources)

unfoldable pub query : Outside → List Parameter → List (Text × Pod) → Outcome (Result Response)
unfolding build_request
query O ps pods = queried O (build_request O ps pods)
