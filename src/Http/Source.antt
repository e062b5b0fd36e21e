-- ===== src/Http/Source.antt =====
-- The buffer of Net/Buffer.antt as the byte source of the parser, and the parser over it.
use jingjie_ar.Prelude.{nat_eq, list_eq}
use jingjie_ar.Net.Buffer.{Buffer, peek, retrieve}
use jingjie_ar.Net.Buffer.Invariant.{IsValid, retrieve-IsValid}
use jingjie_ar.Net.Buffer.Content.{peek-retrieve}
use jingjie_ar.Http.Context.{ByteSource}

-- `retrieve` meets the parser's expectations on every valid buffer.
unfoldable pub buffer_source : ByteSource Buffer
buffer_source = record {
  IsReady = IsValid;
  view = peek;
  consume = retrieve;
  consume-IsReady = retrieve-IsValid;
  view-consume = peek-retrieve;
}
