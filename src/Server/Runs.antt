-- ===== src/Server/Runs.antt =====
-- Runs of onMessage of src/http/HttpServer.cpp.
use jingjie_ar.Http.Context.{reset, got_complete_request, Context}
use jingjie_ar.Server.{send_response, on_request, Served, on_message, after_request}
use jingjie_ar.Http.Source.{buffer_source}
use jingjie_ar.Dispatcher.{complete, Dispatched}
use jingjie_ar.Net.Buffer.{readable_bytes, Buffer}
use jingjie_ar.Http.Parser.{round, parse_loop, parse_request}
use jingjie_ar.Text.{Bytes}
use jingjie_ar.Http.Response.{Response}
use jingjie_ar.Http.Request.{Request}
use jingjie_ar.Prelude.{
  ℕ, suc, ◌<◌, ◌≡◌, refl, ◌∙◌, Bool, true, Option, some, [], ◌∷◌, ltb, lt→ltb, nat_eq, list_eq,
}

parse_request-of_complete :
    (n now : ℕ) (c : Context) (b : Buffer)
    → c.state ≡ got_complete_request
    → parse_request buffer_source (suc n) now c b ≡ some (c, b, true)
unfolding parse_request parse_loop round
parse_request-of_complete n now c b e = simp (e, parse_request, parse_loop)

after_request-of_closing :
    (dispatch_request : Request → Response → Dispatched) (opens : Bytes → Bool) (o : Dispatched)
    (c : Context) (b : Buffer) (rest : Option Served)
    → o.result ≡ complete
    → o.response.close_connection ≡ true
    → after_request dispatch_request opens o c b rest
      ≡ some (record {
        context = c;
        buffer = b;
        sent = send_response opens o.response ∷ [];
        calls = o.calls;
      })
unfolding after_request
after_request-of_closing dispatch_request opens o c b rest e closing =
    rw (after_request, e) (rw closing refl)

on_message-of_parsed :
    (dispatch_request : Request → Response → Dispatched) (opens : Bytes → Bool)
    (fuel parser_fuel now : ℕ) (c c' : Context) (b b' : Buffer)
    → 0 < readable_bytes b
    → parse_request buffer_source parser_fuel now c b ≡ some (c', b', true)
    → c'.state ≡ got_complete_request
    → on_message dispatch_request opens (suc fuel) parser_fuel now c b
      ≡ after_request dispatch_request opens
          (on_request dispatch_request opens c'.request)
          c'
          b'
          (on_message dispatch_request opens fuel parser_fuel now (reset c') b')
unfolding on_message
on_message-of_parsed dispatch_request opens fuel parser_fuel now c c' b b' some_bytes parsed done =
    let nonempty : ltb 0 (readable_bytes b) ≡ true = lt→ltb _ _ some_bytes in
    rw nonempty (rw (on_message, parsed) (rw done refl))

-- A request that is answered with a closing response is still there after onMessage, since only a
-- pending or a keep-alive answer resets the parser: when bytes of any kind come on the connection
-- later, the next call of onMessage runs its handlers again and hands the same answer to the
-- connection, without a look at the new bytes.
pub on_message-replays :
    (dispatch_request : Request → Response → Dispatched) (opens : Bytes → Bool)
    (fuel parser_fuel now n later : ℕ) (c c' : Context) (b b' more : Buffer)
    → 0 < readable_bytes b
    → parse_request buffer_source parser_fuel now c b ≡ some (c', b', true)
    → c'.state ≡ got_complete_request
    → let o = on_request dispatch_request opens c'.request in
      o.result ≡ complete
      → o.response.close_connection ≡ true
      → 0 < readable_bytes more
      → (on_message dispatch_request opens (suc fuel) parser_fuel now c b
          ≡ some (record {
            context = c';
            buffer = b';
            sent = send_response opens o.response ∷ [];
            calls = o.calls;
          }))
        × (on_message dispatch_request opens (suc fuel) (suc n) later c' more
            ≡ some (record {
              context = c';
              buffer = more;
              sent = send_response opens o.response ∷ [];
              calls = o.calls;
            }))
on_message-replays dispatch_request opens fuel parser_fuel now n later c c' b b' more some_bytes
      parsed done completes closes nonempty =
    (
      on_message-of_parsed dispatch_request opens fuel parser_fuel now c c' b b' some_bytes parsed
            done
          ∙ after_request-of_closing dispatch_request opens
              (on_request dispatch_request opens c'.request) c' b'
              (on_message dispatch_request opens fuel parser_fuel now (reset c') b') completes
              closes,
      on_message-of_parsed dispatch_request opens fuel (suc n) later c' c' more more nonempty
            (parse_request-of_complete n later c' more done) done
          ∙ after_request-of_closing dispatch_request opens
              (on_request dispatch_request opens c'.request) c' more
              (on_message dispatch_request opens fuel (suc n) later (reset c') more) completes
              closes,
    )
