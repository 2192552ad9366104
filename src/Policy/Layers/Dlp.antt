-- ===== src/Policy/Layers/Dlp.antt =====
-- layers/dlp.rs. The patterns are regular expressions, and so parameters; so are the conversions of
-- a header value and of a body to text.
use bot_marshal.Prelude.{
  ℕ, Text, Option, none, some, Bool, true, false, List, [], ◌∷◌, ◌++◌, lit, format, decimal, Result,
  ok, find, if◌then◌else◌,
}
use bot_marshal.Core.Error.{Error}
use bot_marshal.Core.Evidence.{Evidence, add_flag, add_flags, record_fact}
use bot_marshal.Core.Json.{string, bool}
use bot_marshal.Core.Layer.{PolicyLayer, moderate, streaming, buffered, FailureMode}
use bot_marshal.Core.Request.{RequestContext, BodyHandle}
use bot_marshal.Core.Verdict.{Reason, reason, with_rule, Verdict}
use bot_marshal.Policy.Layers.{Outcome, apply}

pub data Oversize : Type 0 where
  deny pass_unscanned : Oversize

pub record Pattern : Type 0 where
  pub name : Text
  pub description : Text
  pub is_match : Text → Bool

pub record Dlp : Type 0 where
  pub patterns : List Pattern
  pub scan_request : Bool
  pub on_match : Outcome
  pub annotate : List Text
  pub body_cap : ℕ
  pub oversize : Oversize

-- `HeaderValue::to_str` and `std::str::from_utf8`.
pub record Decoders : Type 0 where
  pub header_text : List ℕ → Option Text
  pub from_utf8 : List ℕ → Option Text

-- A finding: the pattern, and where it was found.
abbrev pub Hit : Type 0
Hit = Pattern × Text

unfoldable pub scan : Dlp → Text → Option Pattern
scan d text = find (λ p. p.is_match text) d.patterns

abbrev scan_option : Dlp → Option Text → Option Pattern
scan_option d none = none
scan_option d (some text) = scan d text

abbrev located : Text → Option Pattern → Option Hit
located place none = none
located place (some p) = some (p, place)

-- `if hit.is_none() { hit = .. }`.
abbrev otherwise : Option Hit → Option Hit → Option Hit
otherwise (some h) later = some h
otherwise none later = later

module _ (dec : Decoders) (d : Dlp) where
  -- The loop over the headers, which ends at the first hit.
  scan_headers : List (Text × List ℕ) → Option Hit
  scan_headers [] = none
  scan_headers ((name, value) ∷ hs) =
      otherwise (located (lit "header:" ++ name) (scan_option d (dec.header_text value)))
        (scan_headers hs)

  -- Headers first, then the query string.
  unfoldable pub scan_head : RequestContext → Option Hit
  unfolding scan_headers
  scan_head cx =
      otherwise (scan_headers cx.headers) (located (lit "query") (scan_option d cx.uri.query))

  too_large : Reason
  too_large = reason (lit "dlp") (lit "body_too_large_to_scan") (
      lit "the request body exceeds the "
      ++ (decimal d.body_cap ++ lit " byte scan cap and this profile refuses unscanned bodies"))

  found : RequestContext → Hit → Reason
  found cx (p, location) = with_rule p.name (
      reason (lit "dlp") (lit "credential_in_request") (
        format (
          lit "a value matching `"
          ∷ p.name
          ∷ lit "` ("
          ∷ p.description
          ∷ lit ") was found in the "
          ∷ location
          ∷ lit " of a request to `"
          ∷ cx.authority.host
          ∷ lit
              "`. Credentials must not leave through the proxy; use a placeholder and let bot-marshal inject the real value."
          ∷ [])))

  -- What follows a hit: the finding is recorded, and the configured verdict given.
  report : RequestContext → Evidence → Hit → Result Error Verdict
  unfolding found
  report cx ev (p, location) =
      let named = (record_fact (lit "dlp.matched") (string p.name) ev).0 in
      let placed = (record_fact (lit "dlp.location") (string location) named).0 in
      ok (apply d.on_match (add_flags d.annotate placed) (found cx (p, location)))

  -- The end of `evaluate`: without a hit the request passes.
  conclude : RequestContext → Evidence → Option Hit → Result Error Verdict
  unfolding report
  conclude cx ev none = ok (Verdict.pass ev)
  conclude cx ev (some hit) = report cx ev hit

  unscanned : Evidence → Evidence
  unscanned ev =
      (record_fact (lit "dlp.body_scanned") (bool false) (add_flag (lit "BodyNotScanned") ev)).0

  -- A body that was not materialised within the cap.
  oversized : RequestContext → Evidence → Result Error Verdict
  unfolding too_large conclude unscanned
  oversized cx ev = elim d.oversize [
    | Oversize.deny ↦ ok (Verdict.deny too_large)
    | Oversize.pass_unscanned ↦ conclude cx (unscanned ev) none
  ]

  -- The match on the body, when nothing was found before it.
  scan_body : RequestContext → Evidence → BodyHandle → Result Error Verdict
  unfolding oversized
  scan_body cx ev (BodyHandle.buffered bytes) =
      conclude cx ev (located (lit "body") (scan_option d (dec.from_utf8 bytes)))
  scan_body cx ev BodyHandle.streaming = oversized cx ev
  scan_body cx ev (BodyHandle.over_limit p l o) = oversized cx ev
  scan_body cx ev BodyHandle.empty = conclude cx ev none

  -- `Dlp::evaluate`.
  unfoldable pub dlp_evaluate : RequestContext → Evidence → Result Error Verdict
  unfolding scan_head scan_body
  dlp_evaluate cx ev = elim (scan_head cx) [
    | some hit ↦ report cx ev hit
    | none ↦ if d.scan_request then scan_body cx ev cx.body else conclude cx ev none
  ]

  unfoldable pub dlp_layer : PolicyLayer
  unfolding dlp_evaluate
  dlp_layer = record {
    name = lit "dlp";
    cost = moderate;
    needs_request = true;
    body_requirement = if d.scan_request then buffered d.body_cap else streaming;
    on_error = FailureMode.deny;
    evaluate = dlp_evaluate;
  }
