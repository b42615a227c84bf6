-- ===== src/Tests/HttpCases.antt =====
-- nhop/src/proxy/http.rs: cases of the HTTP front end.
use nhop.Common.{ℕ, ◌≤◌, ◌≡◌, refl, Option, none, some, List, [], ◌∷◌, ◌++◌, take, arith}
use nhop.Text.{Text, text}
use nhop.Text.Utf8.{Bytes}
use nhop.Proxy.Http.{Method, Body, Request, crlf, head_end, parse_head}
use nhop.Proxy.Http.Rewritten.{rewritten}
use nhop.Proxy.Http.Framed.{body_sent, body_sent-sized}

abbrev head : Bytes
head =
    text "GET http://[::1]:8080/a HTTP/1.1"
    ++ (crlf ++ (text "TE: trailers" ++ (crlf ++ (text "Accept: text/plain" ++ (crlf ++ crlf)))))

-- The authority is read without its brackets.
head_is_read :
    parse_head head
    ≡ some
        (record { method = Method.absolute; host = text "::1"; port = 8080; body = Body.sized 0 })
unfolding parse_head nhop.Text.Utf8.from_utf8 nhop.Common.list_same nhop.Text.Numbers.parse_u16
    nhop.Text.trim nhop.Text.lower
head_is_read = refl

-- The hop-by-hop field is dropped, and the address is written without its brackets.
head_is_rewritten :
    rewritten head (text "::1") 8080
    ≡ some (
        text "GET /a HTTP/1.1"
        ++ (crlf
            ++ (text "Host: ::1:8080"
                ++ (crlf
                    ++ (text "Accept: text/plain"
                        ++ (crlf ++ (text "Connection: close" ++ (crlf ++ crlf))))))))
unfolding rewritten nhop.Text.Utf8.from_utf8 nhop.Text.Numbers.show nhop.Text.Splits.split_pair
    nhop.Proxy.Http.Rewritten.dropped nhop.Common.list_same nhop.Text.trim nhop.Text.lower
head_is_rewritten = refl

body_sent-sized_example :
    body_sent Method.absolute (Body.sized 3) (b'a' ∷ []) (b'b' ∷ b'c' ∷ b'G' ∷ [])
    ≡ take 3 ((b'a' ∷ []) ++ (b'b' ∷ b'c' ∷ b'G' ∷ []))
body_sent-sized_example = body_sent-sized 3 (b'a' ∷ []) (b'b' ∷ b'c' ∷ b'G' ∷ []) (omega arith)
