-- ===== src/Client/Encoded.antt =====
-- What the client writes, against the circuit's template.
use zk_prompt.Base.{
  ◌≡◌, refl, ap, sym, ◌∙◌, some, [], ◌∷◌, ◌++◌, Bytes, length, append_assoc, append-nil,
}
use zk_prompt.Base.Text.{into_bytes-append, codes, encode_char, into_bytes, decimal}
use zk_prompt.Openai.Config.{
  RequestConfig, req_line, host_header, authorization_header, content_type_header,
  content_length_header, connection_header, header_sections, template,
}
use zk_prompt.Client.{Request, host_line, headers_loop, finish_headers, encode_request}
use zk_prompt.Base.Words.{eq_ignore_ascii_case}

-- A chat completion under a configuration, with the headers that the configuration names.
abbrev pub chat_request : RequestConfig → Bytes → Request
chat_request c body = record {
  method = codes "POST";
  path_and_query = some c.basepath;
  authority = some c.host;
  headers =
      (codes "authorization", into_bytes (codes "Bearer " ++ c.api_key))
      ∷ (codes "content-type", codes "application/json")
      ∷ [];
  body = body;
}

module _ (c : RequestConfig) where
  authorization_line :
      into_bytes (codes "authorization")
        ++ codes ": "
        ++ into_bytes (codes "Bearer " ++ c.api_key)
        ++ codes "\r\n"
      ≡ authorization_header c
  unfolding authorization_header into_bytes encode_char
  authorization_line =
      ap (λ (l : Bytes). codes "authorization: Bearer " ++ l)
        (sym (into_bytes-append c.api_key (codes "\r\n")))

  type_line :
      into_bytes (codes "content-type") ++ codes ": " ++ codes "application/json" ++ codes "\r\n"
      ≡ content_type_header c
  unfolding content_type_header into_bytes encode_char
  type_line = refl

  -- Six sections written one after another.
  abbrev written : Bytes → Bytes → Bytes → Bytes → Bytes → Bytes → Bytes
  written x1 x2 x3 x4 x5 x6 = x1 ++ x2 ++ x3 ++ x4 ++ x5 ++ x6

  encoded :
      (body : Bytes)
      → encode_request (chat_request c body)
        ≡ written
            (req_line c)
            (host_header c)
            (into_bytes (codes "authorization")
              ++ codes ": "
              ++ into_bytes (codes "Bearer " ++ c.api_key)
              ++ codes "\r\n")
            (into_bytes (codes "content-type")
              ++ codes ": "
              ++ codes "application/json"
              ++ codes "\r\n")
            (into_bytes (codes "Content-Length: " ++ (decimal (length body) ++ codes "\r\n")))
            (connection_header c)
          ++ codes "\r\n"
          ++ body
  unfolding encode_request headers_loop finish_headers host_line eq_ignore_ascii_case req_line
      host_header connection_header
  encoded body = refl

  sections :
      (x1 x2 x3 x4 x5 x6 : Bytes)
      → written x1 x2 x3 x4 x5 x6 ≡ x1 ++ (x2 ++ (x3 ++ (x4 ++ (x5 ++ (x6 ++ [])))))
  sections x1 x2 x3 x4 x5 x6 = simp (append_assoc, append-nil)

  in_template :
      written
        (req_line c)
        (host_header c)
        (authorization_header c)
        (content_type_header c)
        (content_length_header c)
        (connection_header c)
      ≡ template c
  unfolding header_sections
  in_template =
      sections (req_line c) (host_header c) (authorization_header c) (content_type_header c)
        (content_length_header c) (connection_header c)

  -- With the headers of the configuration and a body of the configured length, the client writes
  -- the header template, an empty line and the body.
  pub encode_request-template :
      (body : Bytes)
      → length body ≡ c.content_length
      → encode_request (chat_request c body) ≡ template c ++ (codes "\r\n" ++ body)
  unfolding content_length_header
  encode_request-template body size =
      encoded body
      ∙ (λ i.
          written (req_line c) (host_header c) (authorization_line i) (type_line i)
            (into_bytes (codes "Content-Length: " ++ (decimal (size i) ++ codes "\r\n")))
            (connection_header c)
          ++ codes "\r\n"
          ++ body)
      ∙ ap (λ (l : Bytes). l ++ codes "\r\n" ++ body) in_template
      ∙ append_assoc (template c) (codes "\r\n") body
