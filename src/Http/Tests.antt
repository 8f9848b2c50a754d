-- ===== src/Http/Tests.antt =====
-- Runs of the theorems on HTTP messages.
use jaeger_client_cpp.Base.{◌≡◌, refl, some, [], ◌∷◌, codes, pos, arith}
use jaeger_client_cpp.Uri.Parts.{is_colon}
use jaeger_client_cpp.Uri.Parts.RoundTrip.{lacks-Lacks}
use jaeger_client_cpp.Http.{Header, is_dots, parse_response}
use jaeger_client_cpp.Http.Lines.{is_cr}
use jaeger_client_cpp.Http.RoundTrip.{Message, IsMessage, message_text, parse_response-message_text}

abbrev json_type : Header
json_type = record { key = codes "Content-Type"; value = codes "application/json" }

abbrev answer : Message
answer = record {
  major = b'1';
  minor = b'1';
  status = 200;
  reason = codes "OK";
  headers = json_type ∷ [];
  body = codes "[]";
}

answer-IsMessage : IsMessage answer
unfolding is_dots
answer-IsMessage = record {
  major_digit = refl;
  minor_digit = refl;
  status_lt = omega arith;
  reason_text = (refl, refl);
  good_headers = (
    record {
      has_key = refl;
      no_colon = lacks-Lacks is_colon (codes "Content-Type") refl;
      no_cr = lacks-Lacks is_cr (codes "Content-Type") refl;
      text = (refl, refl);
    },
    tt,
  );
}

parse_response-message_text_example :
    parse_response (message_text answer)
    ≡ some (record {
      version = b'1' ∷ b'.' ∷ b'1' ∷ [];
      status_code = pos 200;
      reason = codes "OK";
      headers = json_type ∷ [];
      body = codes "[]";
    })
parse_response-message_text_example = parse_response-message_text answer answer-IsMessage
