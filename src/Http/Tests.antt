-- ===== src/Http/Tests.antt =====
-- Runs of the messages of yuyu/http/http.cc.
use yuyu.Http.{Text, codes, post, invalid_method, http_method_to_string}
use yuyu.Http.Fields.{MapType, assign_key, strcasecmp}
use yuyu.Http.Lookup.{is_same_key, IsSorted}
use yuyu.Http.Params.{parse_param}
use yuyu.Http.Params.RoundTrip.{render, collect, parse_param-render}
use yuyu.Http.Message.{
  HttpRequest, new_http_request, new_http_response, set_header, get_param, set_param, dump_request,
  dump_response, decimal,
}
use yuyu.Http.Message.Requests.{get_param-set_param}
use yuyu.Common.{◌≡◌, refl, ◌≢◌, true, false, List, [], ◌∷◌, arith}

post-ne : post ≢ invalid_method
post-ne e = cc

abbrev request : HttpRequest
request = record (new_http_request 17 true) { query = codes "name=old&b=2" }

param_example :
    ((get_param (codes "name") [] (set_param (codes "name") (codes "new") request)).0 ≡ codes "new")
    × (get_param
          (codes "name")
          []
          (get_param (codes "name") [] (set_param (codes "name") (codes "new") request)).1
        ≡ get_param (codes "name") [] (set_param (codes "name") (codes "new") request))
param_example = get_param-set_param (codes "name") (codes "new") [] request

same_connection : is_same_key (codes "Connection") (codes "connection") ≡ true
unfolding yuyu.Http.Fields.less_key
same_connection = refl

abbrev fields : MapType
fields = (codes "a", codes "1") ∷ (codes "B", codes "2") ∷ []

fields-IsSorted : IsSorted fields
fields-IsSorted = unfold yuyu.Http.Fields.less_key in ((refl, tt), (tt, tt))

abbrev pairs : List (Text × Text)
pairs = (codes "k", codes "a&b") ∷ (codes "m", codes "1 2") ∷ []

render_example : parse_param 38 (λ s. s) (render pairs) [] ≡ collect pairs []
render_example =
    parse_param-render pairs [] (((refl, tt), omega arith), (((refl, tt), omega arith), tt))

-- The printed forms.
printed_request :
    dump_request (set_header (codes "Host") (codes "a") (new_http_request 17 true))
    ≡ codes "GET / HTTP/1.1\r\nconnection: close\r\nHost: a\r\n\r\n"
unfolding dump_request http_method_to_string set_header new_http_request assign_key strcasecmp
    decimal
printed_request = refl

printed_response :
    dump_response (record (new_http_response 17 false) { body = codes "ok" })
    ≡ codes "HTTP/1.1 200 OK\r\nconnection: keep-alive\r\ncontent-length: 2\r\n\r\nok"
unfolding dump_response new_http_response decimal yuyu.Http.http_status_to_string
printed_response = refl
