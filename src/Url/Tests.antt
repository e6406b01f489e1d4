-- ===== src/Url/Tests.antt =====
-- Runs of the percent encoding of yuyu/util.cc.
use yuyu.Common.{ℕ, ◌≡◌, refl, true, List, [], ◌∷◌, arith}
use yuyu.Url.{url_encode, url_decode}
use yuyu.Url.RoundTrip.{url_decode-url_encode}

-- A space, a percent sign, a letter and a byte above ASCII.
abbrev sample : List ℕ
sample = 32 ∷ 37 ∷ 97 ∷ 200 ∷ []

url_encode_plus : url_encode sample true ≡ 43 ∷ 37 ∷ 50 ∷ 53 ∷ 97 ∷ 37 ∷ 67 ∷ 56 ∷ []
unfolding url_encode yuyu.Url.encode_loop yuyu.Url.is_unreserved yuyu.Url.escape yuyu.Url.hexdigits
url_encode_plus = refl

url_decode-url_encode_example : url_decode (url_encode sample true) true ≡ sample
url_decode-url_encode_example =
    url_decode-url_encode sample true (omega arith, (omega arith, (omega arith, (omega arith, tt))))
