-- ===== src/Tests/Streams.antt =====
-- The translation of event streams at concrete inputs.
use bot_marshal.Prelude.{
  Text, none, some, ◌++◌, lit, ◌≡◌, refl, text_eq, strip_prefix, trim, trim_start_by, trim_end_by,
  is_space, format, if◌then◌else◌,
}
use bot_marshal.Core.Json.{
  Json, string, array, object, nil, item, end, field, get, get_field, as_str, as_items, items,
}
use bot_marshal.Llm.Stream.{LlmLib, split_blank, lines, strip_end, data_line, child, pointer}
use bot_marshal.Llm.Sse.{
  openai, anthropic, DialectSse, new_sse, openai_chunk_to_anthropic, raws_part, raw_part, data_part,
  parsed_part, document_part, start_message, text_part, start_text, write_text, calls_part,
  finish_part, close_blocks, delta_of, insert_block, write_event, event_json,
}
use bot_marshal.Policy.ToolFilter.{split_inclusive}
use bot_marshal.Llm.Sse.Blocks.{IsWritten, new_sse-IsReady, openai_chunk_to_anthropic-IsWritten}

-- {"choices":[{"delta":{"content":"hi"}}]}
abbrev greeting : Json
greeting = object (
    field (lit "choices")
      (array (
        item
          (object
            (field (lit "delta") (object (field (lit "content") (string (lit "hi")) end)) end))
          nil))
      end)

abbrev llm : LlmLib
llm = record {
  from_str = λ s. if text_eq s (lit "greeting") then some greeting else none;
  print = λ v. lit "{}";
}

abbrev chunk : Text
chunk = lit "data: greeting\n\ndata: [DONE]\n\n"

abbrev translator : DialectSse
translator = new_sse openai anthropic (lit "claude")

openai_chunk_to_anthropic-IsWritten_example :
    IsWritten llm translator (openai_chunk_to_anthropic llm chunk translator)
openai_chunk_to_anthropic-IsWritten_example =
    openai_chunk_to_anthropic-IsWritten llm chunk translator
      (new_sse-IsReady openai anthropic (lit "claude"))

openai_chunk_to_anthropic_test :
    (openai_chunk_to_anthropic llm chunk translator).0
    ≡ lit "event: message_start\ndata: {}\n\n"
      ++ (lit "event: content_block_start\ndata: {}\n\n"
          ++ (lit "event: content_block_delta\ndata: {}\n\n"
              ++ (lit "event: content_block_stop\ndata: {}\n\n"
                  ++ lit "event: message_stop\ndata: {}\n\n")))
unfolding openai_chunk_to_anthropic raws_part raw_part data_part parsed_part document_part
    start_message text_part start_text write_text calls_part finish_part close_blocks delta_of
    split_blank lines strip_end split_inclusive data_line strip_prefix child pointer get_field get
    as_str as_items items text_eq trim trim_start_by trim_end_by is_space lit insert_block
    write_event event_json format new_sse
openai_chunk_to_anthropic_test = refl
