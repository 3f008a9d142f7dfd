-- ===== src/Stream/Tests.antt =====
-- crates/lightr-cri-stream: the laws at concrete tokens, frames and blocks.
use lightr_cri.Prelude.{
  ℕ, ◌≡◌, ◌≤◌, refl, Bool, All, not, ◌&&◌, ◌==◌, false, true, List, [], ◌∷◌, ◌++◌, Option, none,
  some, arith, length,
}
use lightr_cri.Prelude.Map.{text_key, get, insert, retain}
use lightr_cri.Prelude.Text.{Text, codes, text_eq, text_eq_refl}
use lightr_cri.Stream.B64.{encode_url_nopad, encode_std, decode_std}
use lightr_cri.Stream.B64.RoundTrip.{decode_std-encode_std}
use lightr_cri.Stream.Negotiate.{
  negotiate_exec_protocol, negotiate, offers, lists, allowed_protocols, spdy_exec_protocols,
  split_on, trim, trim_start, trim_end, words, spaced, find, reversed,
}
use lightr_cri.Stream.Negotiate.{is_space, IsBest}
use lightr_cri.Stream.Negotiate.Offers.{
  IsToken, IsTokenByte, is_among, versions, negotiate_exec_protocol-written,
}
use lightr_cri.Stream.Token.{
  StreamParams, exec, max_inflight, Registry, sweep, Draws, mint_loop, mint, consume,
}
use lightr_cri.Stream.Token.Laws.{entry, consume-mint}
use lightr_cri.Stream.Token.Cap.{mints, consumes, run, run-cap, consume_single_use}
use lightr_cri.Stream.Spdy.Frame.{
  Frame, rst_stream, ping, payload_data, parsed, need_more, parse_frame, parse_whole, frame_length,
  is_control, be_u31, be_u32, control_header, serialize, be16, be24, be31, be32,
}
use lightr_cri.Stream.Spdy.Frame.RoundTrip.{parse_frame-serialize}
use lightr_cri.Stream.Spdy.Frame.Partial.{parse_frame_cut}
use lightr_cri.Stream.Spdy.Reader.{Read, bytes}
use lightr_cri.Stream.Spdy.Reader.Chunks.{Delivers, read_frame-serialize_all}
use lightr_cri.Stream.Spdy.Headers.{serialize_headers, deserialize_headers}
use lightr_cri.Stream.Spdy.Headers.RoundTrip.{deserialize_headers-serialize_headers}

decode_std-encode_std_example : decode_std (encode_std (77 ∷ 255 ∷ [])) ≡ some (77 ∷ 255 ∷ [])
decode_std-encode_std_example =
    decode_std-encode_std (77 ∷ 255 ∷ []) (omega arith, (omega arith, tt))

-- An exec token that is minted into an empty registry.
abbrev params : StreamParams
params = record {
  container = some (codes "ct-1");
  sandbox = none;
  cmd = codes "sh" ∷ [];
  tty = false;
  stdin = true;
  ports = [];
  dial_target = none;
  netns_path = none;
}

abbrev draw : List ℕ
draw = 0 ∷ 1 ∷ 2 ∷ 3 ∷ 4 ∷ 5 ∷ []

abbrev draws : Draws
draws i = some draw

abbrev token : Text
token = encode_url_nopad draw

abbrev one_token : Registry
one_token = (token, entry exec params 7) ∷ []

minted : mint exec params 7 draws [] ≡ (some token, one_token)
unfolding mint mint_loop sweep get insert retain
minted = refl

held : get token one_token ≡ some (entry exec params 7)
unfolding get
held = ground (arith, text_eq_refl token)

consume-mint_example :
    ((consume token 8 one_token).0 ≡ some (exec, params))
    × ((consume token 9 (consume token 8 one_token).1).0 ≡ none)
consume-mint_example = consume-mint exec params 7 8 9 draws [] one_token token minted (omega arith)

run-cap_example : length (run (mints exec params 7 draws ∷ consumes token 8 ∷ []) []) ≤ max_inflight
run-cap_example = run-cap (mints exec params 7 draws ∷ consumes token 8 ∷ []) [] (omega arith)

consume_single_use_example :
    (consume token 9 (run (consumes token 8 ∷ []) (consume token 7 one_token).1)).0 ≡ none
consume_single_use_example = consume_single_use token 7 9 (consumes token 8 ∷ []) one_token tt

-- A reset of stream 5, and a ping.
abbrev reset : Frame
reset = rst_stream 5 3

parse_frame-serialize_example :
    parse_frame (serialize reset ++ (128 ∷ [])) ≡ parsed reset (length (serialize reset))
parse_frame-serialize_example = parse_frame-serialize reset (128 ∷ []) (omega arith, omega arith)

abbrev data_bytes : List ℕ
data_bytes = 0 ∷ 0 ∷ 0 ∷ 1 ∷ 1 ∷ 0 ∷ 0 ∷ 1 ∷ 65 ∷ []

data_parsed : parse_frame data_bytes ≡ parsed (payload_data 1 1 (65 ∷ [])) 9
unfolding parse_frame frame_length parse_whole is_control be_u31 be_u32
data_parsed = refl

parse_frame_cut_example : parse_frame (128 ∷ 3 ∷ 0 ∷ 6 ∷ 0 ∷ 0 ∷ 0 ∷ 4 ∷ 0 ∷ 0 ∷ 0 ∷ []) ≡ need_more
parse_frame_cut_example =
    parse_frame_cut (ping 7) (128 ∷ 3 ∷ 0 ∷ 6 ∷ 0 ∷ 0 ∷ 0 ∷ 4 ∷ 0 ∷ 0 ∷ 0 ∷ []) [] 7 (omega arith)
      (unfold serialize control_header be16 be24 be32 in refl)

-- The bytes of the two frames in two reads, of which the first ends within the first frame.
abbrev reads : List Read
reads =
    bytes (128 ∷ 3 ∷ 0 ∷ 3 ∷ 0 ∷ 0 ∷ 0 ∷ 8 ∷ 0 ∷ 0 ∷ [])
    ∷ bytes (0 ∷ 5 ∷ 0 ∷ 0 ∷ 0 ∷ 3 ∷ 128 ∷ 3 ∷ 0 ∷ 6 ∷ 0 ∷ 0 ∷ 0 ∷ 4 ∷ 0 ∷ 0 ∷ 0 ∷ 7 ∷ [])
    ∷ []

read_frame-serialize_all_example : Delivers reads [] (reset ∷ ping 7 ∷ [])
read_frame-serialize_all_example =
    read_frame-serialize_all (reset ∷ ping 7 ∷ []) reads []
      ((omega arith, omega arith), (omega arith, tt)) tt
      (unfold serialize control_header be16 be24 be31 be32 in refl)

abbrev ascii : List ℕ → Option Text
ascii t = some t

abbrev pairs : List (Text × Text)
pairs = (codes "streamtype", codes "stdout") ∷ []

deserialize_headers-serialize_headers_example :
    deserialize_headers ascii (serialize_headers pairs ++ (9 ∷ [])) ≡ some pairs
deserialize_headers-serialize_headers_example =
    deserialize_headers-serialize_headers ascii pairs (9 ∷ []) (omega arith)
      ((omega arith, omega arith, refl, refl), tt)

abbrev header : Text
header = codes "v4.channel.k8s.io, v5.channel.k8s.io"

negotiated : negotiate_exec_protocol header ≡ some (codes "v5.channel.k8s.io")
unfolding negotiate_exec_protocol offers spdy_exec_protocols split_on trim trim_start trim_end words
    spaced find reversed text_eq
negotiated = refl

negotiated_channel : negotiate (some header) ≡ codes "v5.channel.k8s.io"
unfolding negotiate lists allowed_protocols split_on trim trim_start trim_end find text_eq
negotiated_channel = refl

abbrev is_token : Text → Bool
is_token [] = true
is_token (c ∷ t) = not (c == b',') && (not (is_space c) && is_token t)

token_bytes : (t : Text) → is_token t ≡ true → All IsTokenByte t
token_bytes [] h = tt
token_bytes (c ∷ t) h = ((ground (arith, h), ground (arith, h)), token_bytes t (ground (arith, h)))

v4-IsToken : IsToken (codes "v4.channel.k8s.io")
v4-IsToken = token_bytes (codes "v4.channel.k8s.io") refl

negotiate_exec_protocol-written_example :
    IsBest
      (is_among (codes "v4.channel.k8s.io" ∷ codes "v9" ∷ codes "v4.channel.k8s.io" ∷ []))
      versions
      (negotiate_exec_protocol (codes "v4.channel.k8s.io, v9 v4.channel.k8s.io"))
negotiate_exec_protocol-written_example =
    negotiate_exec_protocol-written (codes "v4.channel.k8s.io")
      ((44, 32 ∷ [], codes "v9") ∷ (32, [], codes "v4.channel.k8s.io") ∷ [])
      (v4-IsToken, (refl, ((refl, tt), (token_bytes (codes "v9") refl, (refl, (tt, v4-IsToken))))))
