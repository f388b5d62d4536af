-- ===== src/Tests/Data.antt =====
-- A heap that grants every request, and the compiler's state on a source text.
use l5lunos.Prelude.{◌+◌, ◌*◌, true, false, none, some, [], Bytes, codes, length, replicate}
use l5lunos.Mem.Kalloc.{Heap}
use l5lunos.Mem.Ptrbox.{Mem}
use l5lunos.Pirho.Token.{val, no_token, LexToken}
use l5lunos.Pirho.Lexer.{Lexer}
use l5lunos.Pirho.Parser.{Work}

abbrev pub heap : Heap
heap = record { is_init = true; grants = λ k sz. some (4096 * (k + 1)); calls = 0; live = [] }

abbrev pub mem : Mem
mem = record { heap = heap; box = record { self = 64; count = 0; q = [] } }

abbrev pub lexer : Bytes → Lexer
lexer src = record {
  source = src;
  source_size = length src;
  source_idx = 0;
  ccache = 0;
  line_no = 1;
  mem = mem;
}

abbrev pub empty_token : LexToken
empty_token = record { token = no_token; value = val 0 }

abbrev pub work : Bytes → Work
work src = record {
  lex = lexer src;
  piir_stack = record { opstore = []; op_head = 0; op_tail = 0 };
  symlist = record { symq = []; cache = replicate 32 none; nsym = 0; cache_i = 0 };
  in_func = false;
  begin_depth = 0;
  tok = empty_token;
}

abbrev pub return_5 : Bytes
return_5 = codes "proc main() -> i8 begin return 5 end"

abbrev pub return_hi : Bytes
return_hi = codes "proc main() -> i8 begin return \"hi\" end"

abbrev pub print_5 : Bytes
print_5 = codes "proc print() -> i8 begin return 5 end"
