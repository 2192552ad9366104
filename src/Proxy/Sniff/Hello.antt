-- ===== src/Proxy/Sniff/Hello.antt =====
-- A TLS hello written out, and the name that the sniffer finds in it.
use bot_marshal.Prelude.{
  ℕ, ◌<◌, Text, some, true, List, ◌++◌, ◌≡◌, refl, ap, ◌∙◌, arith, All, is_utf8, length,
  to_ascii_lowercase,
}
use bot_marshal.Proxy.Cursor.{inside, reader_new}
use bot_marshal.Proxy.Cursor.Reads.{
  IsAt, Reads-bind, Reads-take, Reads-skip, Reads-u8, Reads-u16, Reads-u24, one_byte, two_bytes,
  three_bytes, reader_new-IsAt, inside-Reads,
}
use bot_marshal.Proxy.Sniff.{
  tls_record, handshake_body, extensions, named, host_name, server_name, find_name,
  sni_from_client_hello, and_then, name_list,
}
use bot_marshal.Proxy.Sniff.Entries.{
  entry_bytes, extension_bytes, concat_of, IsOther, expect-Reads, length-concat_of, entry_bytes-le,
  extension_bytes-le, host_name-finds, find_name-finds, entry_bytes-pos, extension_bytes-pos,
}

-- A TLS hello with a server_name: the fields in front, other extensions and other names before the
-- host name, and any bytes at the end of each length.
pub record Hello : Type 0 where
  pub record_version : List ℕ
  pub version : List ℕ
  pub random : List ℕ
  pub session_id : List ℕ
  pub cipher_suites : List ℕ
  pub compression : List ℕ
  pub extensions_before : List (ℕ × List ℕ)
  pub names_before : List (ℕ × List ℕ)
  pub host : Text
  pub names_after : List ℕ
  pub list_after : List ℕ
  pub extensions_after : List ℕ
  pub body_after : List ℕ
  pub message_after : List ℕ
  pub record_after : List ℕ

pub record IsHello (h : Hello) : Type 0 where
  pub record_version_length : length h.record_version ≡ 2
  pub version_length : length h.version ≡ 2
  pub random_length : length h.random ≡ 32
  pub extensions_other : All IsOther h.extensions_before
  pub names_other : All IsOther h.names_before
  pub host_utf8 : is_utf8 h.host ≡ true

-- Bytes behind their length.
abbrev pub block : (ℕ → List ℕ) → List ℕ → List ℕ
block number bytes = number (length bytes) ++ bytes

pub names_bytes : Hello → List ℕ
names_bytes h = concat_of entry_bytes h.names_before ++ (entry_bytes (0, h.host) ++ h.names_after)

pub server_name_bytes : Hello → List ℕ
server_name_bytes h = block two_bytes (names_bytes h) ++ h.list_after

pub extensions_bytes : Hello → List ℕ
extensions_bytes h =
    concat_of extension_bytes h.extensions_before
    ++ (extension_bytes (0, server_name_bytes h) ++ h.extensions_after)

pub body_bytes : Hello → List ℕ
body_bytes h =
    (h.version
      ++ (h.random
          ++ (one_byte (length h.session_id)
              ++ (h.session_id
                  ++ (two_bytes (length h.cipher_suites)
                      ++ (h.cipher_suites
                          ++ (one_byte (length h.compression)
                              ++ (h.compression ++ block two_bytes (extensions_bytes h)))))))))
    ++ h.body_after

pub message_bytes : Hello → List ℕ
message_bytes h = (one_byte 1 ++ block three_bytes (body_bytes h)) ++ h.message_after

pub hello_bytes : Hello → List ℕ
hello_bytes h =
    (one_byte 0x16 ++ (h.record_version ++ block two_bytes (message_bytes h))) ++ h.record_after

enough_names : (h : Hello) → length h.names_before < length (names_bytes h)
unfolding names_bytes
enough_names h =
    let tail = entry_bytes (0, h.host) ++ h.names_after in
    omega (
      arith,
      length-concat_of entry_bytes entry_bytes-pos h.names_before tail,
      entry_bytes-le (0, h.host) h.names_after,
    )

names-IsAt :
    (h : Hello)
    → IsAt
        (concat_of entry_bytes h.names_before ++ (entry_bytes (0, h.host) ++ h.names_after))
        (reader_new (names_bytes h))
unfolding names_bytes
names-IsAt h = reader_new-IsAt _

server_name-finds : (h : Hello) → IsHello h → server_name (server_name_bytes h) ≡ named h.host
unfolding server_name server_name_bytes
server_name-finds h ok =
    let names = names_bytes h in
    let listed : inside name_list (block two_bytes names ++ h.list_after) ≡ some names =
      inside-Reads (block two_bytes names) h.list_after
        (Reads-bind _ (Reads-u16 (length names)) (Reads-take (length names) names refl)) in
    ap (λ o. and_then o (λ l. host_name (length l) (reader_new l))) listed
    ∙ host_name-finds h.names_before h.host h.names_after (length names) (reader_new names)
        ok.names_other (enough_names h) (names-IsAt h)

extensions-finds :
    (h : Hello)
    → IsHello h
    → find_name (length (extensions_bytes h)) (reader_new (extensions_bytes h)) ≡ named h.host
unfolding extensions_bytes
extensions-finds h ok =
    let tail = extension_bytes (0, server_name_bytes h) ++ h.extensions_after in
    find_name-finds h.extensions_before (server_name_bytes h) h.extensions_after _ _
      ok.extensions_other
      (omega (
        arith,
        length-concat_of extension_bytes extension_bytes-pos h.extensions_before tail,
        extension_bytes-le (0, server_name_bytes h) h.extensions_after,
      ))
      (reader_new-IsAt _)
    ∙ server_name-finds h ok

tls_record-finds :
    (h : Hello) → IsHello h → inside tls_record (hello_bytes h) ≡ some (message_bytes h)
unfolding tls_record hello_bytes
tls_record-finds h ok = inside-Reads _ h.record_after (
    Reads-bind _ (expect-Reads 0x16 (Reads-u8 0x16)) (
      Reads-bind _ (Reads-skip 2 h.record_version ok.record_version_length) (
        Reads-bind _ (Reads-u16 (length (message_bytes h))) (Reads-take _ (message_bytes h) refl))))

handshake_body-finds : (h : Hello) → inside handshake_body (message_bytes h) ≡ some (body_bytes h)
unfolding handshake_body message_bytes
handshake_body-finds h = inside-Reads _ h.message_after (
    Reads-bind _ (expect-Reads 1 (Reads-u8 1))
      (Reads-bind _ (Reads-u24 (length (body_bytes h))) (Reads-take _ (body_bytes h) refl)))

extensions-Reads :
    (h : Hello) → IsHello h → inside extensions (body_bytes h) ≡ some (extensions_bytes h)
unfolding extensions body_bytes
extensions-Reads h ok = inside-Reads _ h.body_after (
    Reads-bind _ (Reads-skip 2 h.version ok.version_length) (
      Reads-bind _ (Reads-skip 32 h.random ok.random_length) (
        Reads-bind _ (Reads-u8 (length h.session_id)) (
          Reads-bind _ (Reads-skip _ h.session_id refl) (
            Reads-bind _ (Reads-u16 (length h.cipher_suites)) (
              Reads-bind _ (Reads-skip _ h.cipher_suites refl) (
                Reads-bind _ (Reads-u8 (length h.compression)) (
                  Reads-bind _ (Reads-skip _ h.compression refl) (
                    Reads-bind _ (Reads-u16 (length (extensions_bytes h)))
                      (Reads-take _ (extensions_bytes h) refl))))))))))

-- The sniffer reads, out of every TLS hello with a server_name whose host name is UTF-8, that name
-- in lower case, whatever other fields, extensions, names and trailing bytes the hello holds.
pub sni_from_client_hello-hello_bytes :
    (h : Hello)
    → IsHello h
    → sni_from_client_hello (hello_bytes h) ≡ some (to_ascii_lowercase h.host)
unfolding sni_from_client_hello and_then named
sni_from_client_hello-hello_bytes h ok =
    let e1 = tls_record-finds h ok in
    let e2 = handshake_body-finds h in
    let e3 = extensions-Reads h ok in rw (e1, e2, e3) (extensions-finds h ok ∙ rw ok.host_utf8 refl)
