-- ===== src/HttpSession/Tests.antt =====
-- Runs of yuyu/http/http_session.cc and yuyu/http/http_server.cc.
use yuyu.Common.Int.{pos}
use yuyu.Stream.{Reader}
use yuyu.Http.{Text, codes}
use yuyu.Http.Message.{HttpRequest, HttpResponse, new_http_request}
use yuyu.HttpSession.{Parser, handle_client}
use yuyu.Common.{
  ℕ, zero, suc, ◌≡◌, refl, Bool, true, false, ◌||◌, Option, none, some, List, [], ◌∷◌, ◌==◌,
  if◌then◌else◌,
}

-- A stream that gives a byte at a time.
abbrev drip : Reader Text
drip zero s = ((pos 0, []), s)
drip (suc k) [] = ((pos 0, []), [])
drip (suc k) (x ∷ xs) = ((pos 1, x ∷ []), xs)

-- The number of characters up to the first dot, with it.
abbrev to_dot : Text → ℕ
to_dot [] = 0
to_dot (c ∷ s) = if c == 46 then 1 else suc (to_dot s)

abbrev has_dot : Text → Bool
has_dot [] = false
has_dot (c ∷ s) = (c == 46) || has_dot s

-- A parser of a header that ends with a dot, and announces three bytes.
abbrev dotted : Parser Bool HttpRequest
dotted = record {
  start = false;
  execute = λ p buffer. (p || has_dot buffer, to_dot buffer);
  has_error = λ p. false;
  is_finished = λ p. p;
  get_content_length = λ p. 3;
  get_data = λ p. new_http_request 17 true;
}

-- The requests of a client are waiting.
abbrev waiting : List HttpRequest → Option HttpRequest × List HttpRequest
waiting [] = (none, [])
waiting (r ∷ rs) = (some r, rs)

abbrev served :
    HttpRequest → HttpResponse → List HttpRequest → HttpRequest × (HttpResponse × List HttpRequest)
served req rsp s = (req, (rsp, s))

abbrev requests : List HttpRequest
requests = new_http_request 17 false ∷ new_http_request 17 true ∷ new_http_request 16 true ∷ []

-- The second request closes the connection, and what is left is dropped with the session.
handled :
    handle_client waiting served (λ rsp s. s) (λ s. []) true (codes "yuyu") 4 requests
    ≡ some (new_http_request 17 false ∷ new_http_request 17 true ∷ [], [])
unfolding handle_client new_http_request
handled = refl
