-- ===== src/Proxy/Forwarding.antt =====
-- What osTRIS and the peer get: the headers that pass, the requests that never reach osTRIS, and the
-- reading of the body, which ends.
use stir_main.Base.{ℕ, String, ◌≡◌, refl, ◌≢◌, Bool, true, false, Option, List, arith}
use stir_main.Base.Text.{codes_of, strip}
use stir_main.Base.Int.{ℤ}
use stir_main.Proxy.Number.{parse_int}
use stir_main.Proxy.Chunked.{Read, got, value_error, out_of_rounds, read_bytes, read_chunked}
use stir_main.Proxy.Chunked.Streams.{read_chunked_ends}
use stir_main.Proxy.{
  Mode, normal, unavailable_once, timeout_once, drop_after_once, Incoming, response, cut_off, stuck,
  Exchange, header, length_of, chunked_body, read_body, forward, in_mode, do_post, arm,
}

length_of_ends : (n : Option ℤ) (s : List ℕ) → length_of n s ≢ out_of_rounds
unfolding read_bytes
length_of_ends n s h = ground arith

chunked_body_ends :
    (r : Read (List ℕ × List ℕ)) → r ≢ out_of_rounds → chunked_body r ≢ out_of_rounds
chunked_body_ends (got (body, rest)) ends h = cc
chunked_body_ends value_error ends h = cc
chunked_body_ends out_of_rounds ends h = ends refl

read_body_ends : (r : Incoming) → read_body r ≢ out_of_rounds
unfolding read_body
read_body_ends r h = ground (
  arith,
  length_of_ends (parse_int 10 (codes_of (strip (header "content-length" "0" r.headers)))) r.stream,
  chunked_body_ends (read_chunked r.stream) (read_chunked_ends r.stream),
)

module _ (upstream : String) where
  forward_ends : (drop : Bool) (x : Exchange) → (forward upstream drop x).outcome ≢ stuck
  unfolding forward
  forward_ends drop x h = ground (arith, read_body_ends x.1)

  in_mode_ends : (m : Mode) (x : Exchange) → (in_mode upstream m x).outcome ≢ stuck
  unfolding in_mode
  in_mode_ends normal x = forward_ends false x
  in_mode_ends drop_after_once x = forward_ends true x
  in_mode_ends unavailable_once x = λ h. cc
  in_mode_ends timeout_once x = λ h. cc

  -- The handler of every POST ends, whatever bytes the peer sends before it closes the connection.
  pub do_post_ends : (next : Mode) (x : Exchange) → (do_post upstream next x).1.outcome ≢ stuck
  unfolding do_post arm
  do_post_ends next x h = ground (arith, in_mode_ends next x, in_mode_ends normal x)

  -- In the mode `drop_after_once` osTRIS gets exactly the request that it gets in `normal`, and the
  -- peer gets no response: where `normal` answers, the connection is cut.
  pub dropped_after_upstream :
      (x : Exchange)
      → ((in_mode upstream drop_after_once x).forwarded ≡ (in_mode upstream normal x).forwarded)
        × ((status : ℕ) (payload : List ℕ) (kind : String)
            → (in_mode upstream normal x).outcome ≡ response status payload kind
            → (in_mode upstream drop_after_once x).outcome ≡ cut_off)
        × ((status : ℕ) (payload : List ℕ) (kind : String)
            → (in_mode upstream drop_after_once x).outcome ≢ response status payload kind)
  unfolding in_mode forward
  dropped_after_upstream x = (ground arith, λ s p k h. ground arith, λ s p k h. ground arith)
