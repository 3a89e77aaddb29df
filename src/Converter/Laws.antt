-- ===== src/Converter/Laws.antt =====
-- How the conversions of proxy/Converter.cpp fit together.
use gsup_map_proxy.Base.{
  ℕ, ◌+◌, ◌≡◌, Option, if◌then◌else◌, Result, ok, err, conversion_error, ◌>>=◌, map_ok, arith,
}
use gsup_map_proxy.Bcd.{Text}
use gsup_map_proxy.Gsup.{GsupMessage}
use gsup_map_proxy.Map.{MapMessage, ComponentType, return_result, return_error}
use gsup_map_proxy.Converter.{
  gsup_to_map, map_to_gsup, map_invoke_to_gsup, gsup_to_map_result, is_hlr_initiated_gsup_type,
  expected_gsup_result, expected_gsup_error,
}

-- The GSUP type of the answer to `g`, when its MAP request comes back with `component`.
abbrev pub answered_type : GsupMessage → ℕ → ℕ → ComponentType → Option ℕ → Result ℕ
answered_type g tid id component code = gsup_to_map g tid id >>= λ m.
    map_ok (λ (a : GsupMessage). a.type)
      (map_to_gsup (record m { component = component; error_code = code }))

-- Converting a request to MAP, and a ReturnResult or a ReturnError for its operation back to GSUP, gives a message of
-- the result type or the error type that `expectedGsupResult` and `expectedGsupError` name for the request's type. For any
-- other type all of them throw a ConversionError.
pub answered_type-expected :
    (g : GsupMessage) (tid id : ℕ) (code : Option ℕ)
    → (answered_type g tid id return_result code ≡ expected_gsup_result g.type)
      × (answered_type g tid id return_error code ≡ expected_gsup_error g.type)
unfolding gsup_to_map map_to_gsup expected_gsup_result expected_gsup_error
answered_type-expected g tid id code = ground arith

-- What the HLR gets back for `g`: operation, component, TID and invoke ID.
abbrev pub reply_of : GsupMessage → ℕ → ℕ → ℕ → Result (ℕ × ComponentType × ℕ × ℕ)
reply_of g type tid id =
    map_ok (λ (r : MapMessage). (r.operation, r.component, r.transaction_id, r.invoke_id))
      (gsup_to_map_result (record g { type = type }) tid id)

-- When an Invoke of the HLR converts to a GSUP request, the GSUP result of that request (its type plus 2) converts to a
-- ReturnResult for the Invoke's operation and the GSUP error (its type plus 1) to a ReturnError for it, under the TID and
-- the invoke ID given.
pub reply_of-map_invoke_to_gsup :
    (m : MapMessage) (g : GsupMessage) (tid id : ℕ)
    → map_invoke_to_gsup m ≡ ok g
    → (reply_of g (g.type + 2) tid id ≡ ok (m.operation, return_result, tid, id))
      × (reply_of g (g.type + 1) tid id ≡ ok (m.operation, return_error, tid, id))
unfolding map_invoke_to_gsup gsup_to_map_result
reply_of-map_invoke_to_gsup m g tid id e = ground arith

abbrev pub header_of : MapMessage → Text × ℕ × ℕ
header_of r = (r.imsi, r.transaction_id, r.invoke_id)

-- `gsupToMapResult` converts exactly the types that `isHlrInitiatedGsupType` accepts: for them it keeps the IMSI, the TID and
-- the invoke ID, and for every other type it throws a ConversionError.
pub gsup_to_map_result-is_hlr_initiated :
    (g : GsupMessage) (tid id : ℕ)
    → map_ok header_of (gsup_to_map_result g tid id)
      ≡ (if is_hlr_initiated_gsup_type g.type then ok (g.imsi, tid, id) else err conversion_error)
unfolding gsup_to_map_result is_hlr_initiated_gsup_type
gsup_to_map_result-is_hlr_initiated g tid id = ground arith
