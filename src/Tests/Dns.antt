-- ===== src/Tests/Dns.antt =====
-- A DNS query for a custom record.
use interactsh.Prelude.{◌≡◌, refl, [], ◌∷◌, none, some, codes, text_eq, to_lower, lookup}
use interactsh.Server.Dns.Types.{Msg, Question, a, type_a, has_prefix}
use interactsh.Server.Dns.Custom.{check_custom_response, custom_answer, add_custom_records}
use interactsh.Server.Dns.Handlers.{handle_acname_any}
use interactsh.Server.Dns.Serve.{DnsRequest, is_challenge, answer_plain, set_reply, serve_dns}
use interactsh.Server.Dns.Names.{Names}
use interactsh.Server.Dns.Names.Replies.{IsAsked, serve_dns-Names}
use interactsh.Tests.Settings.{small_utilities, small_net, small_server, dns_request, no_metrics}

abbrev aws_question : Question
aws_question = record { name = codes "aws.o.st."; qtype = type_a }

abbrev aws_request : DnsRequest
aws_request = record dns_request { question = aws_question ∷ [] }

-- The address of the record is no address of four bytes to the small library.
abbrev aws_reply : Msg
aws_reply = record {
  question = aws_question ∷ [];
  answer = a (record { name = codes "aws.o.st."; rrtype = type_a; ttl = 60 }) [] ∷ [];
  authority = [];
  extra = [];
}

aws_replies :
    (serve_dns small_utilities small_net small_server
      (λ zone. none)
      (λ m. codes "r")
      aws_request
      no_metrics).1
    ≡ some aws_reply
unfolding serve_dns check_custom_response custom_answer text_eq to_lower lookup is_challenge
    has_prefix answer_plain handle_acname_any add_custom_records
aws_replies = refl

serve_dns-Names_example :
    Names (IsAsked aws_request.question) (set_reply aws_request.question) aws_reply
serve_dns-Names_example =
    serve_dns-Names small_utilities small_net small_server (λ zone. none) (λ m. codes "r")
      aws_request no_metrics aws_reply aws_replies
