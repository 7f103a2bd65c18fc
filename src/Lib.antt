-- ===== src/Lib.antt =====
-- The Occult compiler (src/): a lexer, a parser, an IR generator, an x86-64 back end with a linker, and
-- a stack machine for the IR. This library models the parts below as executable definitions and proves
-- what makes them correct.
--
-- The parts, and the modules that model them:
--   Lexer   src/lexer/lexer.hpp, lexer.cpp, lexer_maps.hpp, number_parser.hpp. `Lexer.Token` has the
--           enumeration `token_type` and tokens, `Lexer.Maps` the tables, `Lexer.State` the fields of
--           the class `lexer`, `Lexer.Scan`, `Lexer.Number` and `Lexer.Step` the handlers and
--           `get_next_token`, `Lexer.Analyze` the function `analyze`. Each handler of the source is a
--           function from a state to its result and the next state. A loop that reads `source[pos]`
--           and moves on by a byte is a recursion on the bytes from `pos` on; a read at the end of the
--           source gives the byte 0, as `std::string` does. The proofs stand in `Lexer.Moves`,
--           `Advances`, `Total`, `Terminates`, `Stuck`, `Decimal`, `Numbers`, `Literals` and `Comments`.
--           `Lexer.Typenames` is `token_t::get_typename` with its table.
--   Parser  src/parser/parser.cpp, parser_maps.hpp, cst.hpp: the shunting-yard algorithm that
--           `parse_expression` calls for each token, and its cleanup (`Parser.Shunting`), with the
--           tables (`Parser.Maps`). `Parser.Grammar` describes expressions as trees, independently;
--           `Parser.Yard`, `Stack`, `Expressions` and `Errors` compare the two. A `parsing_error` is a value.
--   Ir      src/backend/codegen/ir_gen.hpp: opcodes, operands and instructions.
--   Vm      src/backend/vm/vm.hpp, vm.cpp. `Vm.Machine` has the state and the operations, `Vm.Run` the
--           switch and the loop. Signed overflow and division by zero, undefined in C++, are a fault of
--           their own. The machine is in no build target of the repository.
--   Cache   src/backend/codegen/code_cache.hpp, bytecode_format.hpp: `Cache.Write` makes the contents
--           of a file of compiled code, `Cache.Reader` reads one by the layout that the comments give,
--           `Cache.RoundTrip` and `Cache.File` compare them.
--   Linker  src/backend/linker/linker.cpp, elf_header.cpp. `Linker.Link` is `link_and_create_binary`:
--           the placement of functions and string literals, the start stub and the patch loop.
--           `Linker.Elf` and `Linker.Layout` are `generate_binary`. `Linker.Reader` is a reader of ELF
--           files, `Linker.Image` and `Linker.Sections` compare it with the writer. `Linker.Pieces` says
--           what the patch loop does to machine code, and the proofs on the linker stand in
--           `Linker.Patch`, `Shift`, `Rounds`, `Relocate`, `Placement` and `Strings`.
--   X86     src/backend/codegen/x86_64_defs.hpp, x86_64_writer.hpp: the encoder. `X86.Registers`,
--           `Encoding`, `Opcodes` and `Memory` have the enumerations and operands, `X86.Emit` the private
--           methods, one module for each kind of operands, and `X86.Ops` the public ones, which are
--           overloaded and stand in modules by their arguments. A method is the bytes that it appends; a
--           jump takes the size of the code before it. `X86.Decoder` reads instructions by the format of
--           the processor, independently, and `X86.RoundTrip` compares the two. `X86.Numbering` and
--           `Place` name registers and memory operands by the fields that an instruction holds, and
--           `X86.Parts` says which register a number names with a REX byte and without one.
--   Writer  src/backend/codegen/writer.hpp, writer.cpp: the buffer behind the encoder, with
--           `Writer.Strings` on the places of strings and `Writer.Memory` on the executable copy.
--   Asm     src/backend/codegen/x86_64_assembler.hpp, x86_64_assembler_defs.hpp: the inline assembler over
--           the encoder. `Asm.Token` and `Tables` have the enumeration and the maps, `Asm.Tokenizer` the
--           assembler's own lexer, `Asm.Parse` the operands, `Asm.Operands` the macros, and
--           `Asm.Instruction` the cases of the switch and the loop over the tokens. The tokens from
--           `pos_stream` on are a list. An exception of an operand or an instruction is `none`; the loop
--           over the tokens tells an exception from a lack of fuel (`Outcome`). `Asm.Spelling` says how registers and
--           memory operands are spelled, and `Asm.Reading`, `Meaning`, `Errors`, `Registers`, `Known`,
--           `Scan`, `Left` and `Terminates` prove what the assembler makes of them. An integer that from_numerical_string
--           leaves unset, which C++ does not define, is `none` too.
--   Bytes   the loops that write and read integers byte by byte, which these parts share.
--
-- Fuel: `get_next_token` calls itself behind a comment, and takes one unit for each byte of the source
-- and one more, which is enough from every position. `analyze` takes its fuel as an argument, and the
-- machine too, since programs may loop. The patch loop of the linker has the length of the code as fuel;
-- it moves forward in every round, so that suffices. The
-- assembler's loop over its tokens takes their number; the loop that reads them takes its fuel as an
-- argument, since it may not end.
--
-- Positions, lines and columns are plain numbers: they are `uintptr_t` in the source and bounded by
-- its size. Values of type `uintptr_t` that the source computes modulo 2 ^ 64 keep the modulus.
--
-- Not modelled: floating-point literals (`to_parsable_type<double>` is a parameter of the lexer), the
-- printing of tokens and messages, the creation of files, the hash of a function in the code cache (an
-- argument of its header), the parser around expressions, and the parts of the compiler that are not
-- listed above. Maps of the source are association lists in the order of its iteration.
pub mod Common
pub mod Lexer
pub mod Ir
pub mod Vm
pub mod Bytes
pub mod Linker
pub mod Parser
pub mod Cache
pub mod X86
pub mod Writer
pub mod Asm
